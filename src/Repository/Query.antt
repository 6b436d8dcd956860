-- ===== src/Repository/Query.antt =====
-- pkg/repository/query.go: the tree of conditions, its translation to xorm's builder, and the
-- chained query builder. A `Cond` is the expression that the code hands to xorm.io/builder; what
-- it means in SQL is a parameter of the theorems (Query/Meaning).
pub mod Meaning
use go_admin.Common.{
  ℕ, Bool, true, false, Option, none, some, List, [], ◌∷◌, map, ℤ, pos, is_pos, if◌then◌else◌, ◌==◌,
  text_eq, Bytes, bytes,
}
use go_admin.Repository.Quote.{quote_ident, quote_order_by}

-- The values that reach a condition. A Go slice of numbers or strings is one value.
pub data Value : Type 0 where
  null : Value
  num : ℕ → Value
  text : Bytes → Value
  nums : List ℕ → Value
  texts : List Bytes → Value

-- Op, a string type, and its constants
abbrev pub Op : Type 0
Op = Bytes

abbrev pub op_eq : Op
op_eq = bytes "eq"

abbrev pub op_ne : Op
op_ne = bytes "ne"

abbrev pub op_gt : Op
op_gt = bytes "gt"

abbrev pub op_lt : Op
op_lt = bytes "lt"

abbrev pub op_ge : Op
op_ge = bytes "ge"

abbrev pub op_le : Op
op_le = bytes "le"

abbrev pub op_like : Op
op_like = bytes "like"

abbrev pub op_in : Op
op_in = bytes "in"

abbrev pub op_not_in : Op
op_not_in = bytes "notin"

-- Condition
pub record Condition : Type 0 where
  pub field : Bytes
  pub op : Op
  pub value : Value

-- joinKind
pub data JoinKind : Type 0 where
  join_and join_or : JoinKind

-- exprNode; the list of its children is a type of the block.
mutual
  pub data ExprNode : Type 0 where
    node : JoinKind → Option Condition → ExprNodes → ExprNode

  pub data ExprNodes : Type 0 where
    nil : ExprNodes
    cons : ExprNode → ExprNodes → ExprNodes

-- The calls of xorm.io/builder. `like c v` is the pattern of `v` between two percent signs.
pub data Cond : Type 0 where
  eq neq gt lt gte lte like : Bytes → Value → Cond
  in_list not_in : Bytes → List Value → Cond
  both either : Cond → Cond → Cond

-- toAnySlice
unfoldable pub to_any_slice : Value → List Value
to_any_slice null = []
to_any_slice (num n) = num n ∷ []
to_any_slice (text t) = text t ∷ []
to_any_slice (nums ns) = map num ns
to_any_slice (texts ts) = map text ts

-- conditionToCond
unfoldable pub condition_to_cond : Condition → Option Cond
unfolding to_any_slice
condition_to_cond c =
    let field = quote_ident c.field in
    if c.op == op_eq
    then some (eq field c.value)
    else if c.op == op_ne
    then some (neq field c.value)
    else if c.op == op_gt
    then some (gt field c.value)
    else if c.op == op_lt
    then some (lt field c.value)
    else if c.op == op_ge
    then some (gte field c.value)
    else if c.op == op_le
    then some (lte field c.value)
    else if c.op == op_like
    then some (like field c.value)
    else if c.op == op_in
    then some (in_list field (to_any_slice c.value))
    else if c.op == op_not_in
    then some (not_in field (to_any_slice c.value))
    else none

-- The body of the loop of toBuilderCond.
abbrev pub attach : JoinKind → Option Cond → Option Cond → Option Cond
attach join result none = result
attach join none (some part) = some part
attach join_or (some result) (some part) = some (either result part)
attach join_and (some result) (some part) = some (both result part)

-- isGroup chooses between the children's condition and the node's own.
abbrev pub part_of : ExprNodes → Option Cond → Option Condition → Option Cond
part_of (cons n ns) grouped cond = grouped
part_of nil grouped none = none
part_of nil grouped (some c) = condition_to_cond c

abbrev pub join_of : ExprNode → JoinKind
join_of (node join _ _) = join

-- toBuilderCond and nodeToCond
unfoldable mutual
  pub fold_nodes : ExprNodes → Option Cond → Option Cond
  fold_nodes nil result = result
  fold_nodes (cons n ns) result = fold_nodes ns (attach (join_of n) result (node_to_cond n))

  pub node_to_cond : ExprNode → Option Cond
  node_to_cond (node join cond children) = part_of children (fold_nodes children none) cond

unfoldable pub to_builder_cond : ExprNodes → Option Cond
unfolding fold_nodes node_to_cond
to_builder_cond nodes = fold_nodes nodes none

abbrev pub snoc : ExprNodes → ExprNode → ExprNodes
snoc nil n = cons n nil
snoc (cons m ms) n = cons m (snoc ms n)

-- QueryBuilder[T], its *DB left out
pub record QueryBuilder : Type 0 where
  pub nodes : ExprNodes
  pub next_join : JoinKind
  pub order_by : Bytes
  pub limit : ℤ
  pub offset : ℤ
  pub for_update : Bool

-- NewQueryBuilder
unfoldable pub new_query_builder : QueryBuilder
new_query_builder = record {
  nodes = nil;
  next_join = join_and;
  order_by = [];
  limit = pos 0;
  offset = pos 0;
  for_update = false;
}

-- And, Or
unfoldable pub and_next : QueryBuilder → QueryBuilder
and_next qb = record qb { next_join = join_and }

unfoldable pub or_next : QueryBuilder → QueryBuilder
or_next qb = record qb { next_join = join_or }

-- group: the callback gets a fresh builder; an empty group changes nothing.
abbrev add_group : JoinKind → ExprNodes → QueryBuilder → QueryBuilder
add_group join nil qb = qb
add_group join (cons n ns) qb = record qb {
  nodes = snoc qb.nodes (node join none (cons n ns));
  next_join = join_and;
}

unfoldable pub group : JoinKind → (QueryBuilder → QueryBuilder) → QueryBuilder → QueryBuilder
unfolding new_query_builder
group join fn qb = add_group join (fn new_query_builder).nodes qb

-- AndGroup, OrGroup
unfoldable pub and_group : (QueryBuilder → QueryBuilder) → QueryBuilder → QueryBuilder
unfolding group
and_group fn qb = group join_and fn qb

unfoldable pub or_group : (QueryBuilder → QueryBuilder) → QueryBuilder → QueryBuilder
unfolding group
or_group fn qb = group join_or fn qb

-- where
unfoldable pub where_op : Bytes → Op → Value → QueryBuilder → QueryBuilder
where_op field op value qb = record qb {
  nodes =
      snoc qb.nodes
        (node qb.next_join (some (record { field = field; op = op; value = value })) nil);
  next_join = join_and;
}

-- applyFilters
unfoldable pub apply_filters : List Condition → QueryBuilder → QueryBuilder
unfolding where_op
apply_filters [] qb = qb
apply_filters (f ∷ fs) qb = apply_filters fs (where_op f.field f.op f.value qb)

-- Eq, Ne, In, OrderBy, Limit, Offset, ForUpdate; Gt, Lt, Gte, Lte, Like and NotIn are of one form
-- with them.
unfoldable pub where_eq : Bytes → Value → QueryBuilder → QueryBuilder
unfolding where_op
where_eq field value qb = where_op field op_eq value qb

unfoldable pub where_ne : Bytes → Value → QueryBuilder → QueryBuilder
unfolding where_op
where_ne field value qb = where_op field op_ne value qb

unfoldable pub where_in : Bytes → Value → QueryBuilder → QueryBuilder
unfolding where_op
where_in field value qb = where_op field op_in value qb

unfoldable pub order_by : Bytes → QueryBuilder → QueryBuilder
order_by fields qb = record qb { order_by = quote_order_by fields }

unfoldable pub set_limit : ℤ → QueryBuilder → QueryBuilder
set_limit limit qb = record qb { limit = limit }

unfoldable pub set_offset : ℤ → QueryBuilder → QueryBuilder
set_offset offset qb = record qb { offset = offset }

unfoldable pub for_update : QueryBuilder → QueryBuilder
for_update qb = record qb { for_update = true }

-- What a xorm session is told before it runs a SELECT. `limit` holds the arguments of its Limit.
pub record Select : Type 0 where
  pub cond : Option Cond
  pub order_by : Bytes
  pub limit : Option (ℤ × ℤ)
  pub for_update : Bool

-- applyWhere
unfoldable pub apply_where : QueryBuilder → Option Cond
unfolding to_builder_cond
apply_where qb = to_builder_cond qb.nodes

-- applySelect
unfoldable pub apply_select : QueryBuilder → Select
unfolding apply_where
apply_select qb = record {
  cond = apply_where qb;
  order_by = qb.order_by;
  limit =
      if is_pos qb.limit
      then some (qb.limit, qb.offset)
      else if is_pos qb.offset
      then some (ℤ.negsuc 0, qb.offset)
      else none;
  for_update = qb.for_update;
}
