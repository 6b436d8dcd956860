-- ===== src/Repository/Query/Meaning.antt =====
-- What the rows are that a chain of conditions of pkg/repository/query.go selects.
-- `sat c r` is whether the database finds the condition `c` true of the row `r`. Of xorm.io/builder
-- it is assumed that And and Or are conjunction and disjunction (`BuilderLaws`).
use go_admin.Common.{
  ◌≡◌, refl, Bool, true, ◌&&◌, ◌||◌, Option, none, some, List, [], ◌∷◌, arith, Bytes, Option-cases,
  inl, inr, ◌∙◌,
}
use go_admin.Repository.Query.{
  Value, Condition, ExprNode, ExprNodes, nil, cons, JoinKind, join_and, join_or, Cond, both, either,
  Op, condition_to_cond, attach, fold_nodes, node_to_cond, join_of, snoc, QueryBuilder,
  new_query_builder, where_op, add_group, group, apply_filters, apply_where,
}

pub record BuilderLaws {T : Type 0} (sat : Cond → T → Bool) : Type 0 where
  pub sat_both : (a b : Cond) (r : T) → sat (both a b) r ≡ sat a r && sat b r
  pub sat_either : (a b : Cond) (r : T) → sat (either a b) r ≡ sat a r || sat b r

-- A statement without a WHERE clause is about every row.
abbrev pub holds : {T : Type 0} → (Cond → T → Bool) → Option Cond → T → Bool
holds sat none r = true
holds sat (some c) r = sat c r

fold_nodes-snoc :
    (ms : ExprNodes) (n : ExprNode) (result : Option Cond)
    → fold_nodes (snoc ms n) result ≡ attach (join_of n) (fold_nodes ms result) (node_to_cond n)
unfolding fold_nodes
fold_nodes-snoc nil n result = refl
fold_nodes-snoc (cons m ms) n result =
    fold_nodes-snoc ms n (attach (join_of m) result (node_to_cond m))

-- How the meaning of a further part joins that of the conditions before it.
abbrev pub joined : JoinKind → Option Cond → Bool → Bool → Bool
joined join none before part = part
joined join_and (some c) before part = before && part
joined join_or (some c) before part = before || part

module _ {T : Type 0} (sat : Cond → T → Bool) (laws : BuilderLaws sat) (r : T) where
  holds-attach :
      (join : JoinKind) (result : Option Cond) (part : Cond)
      → holds sat (attach join result (some part)) r
        ≡ joined join result (holds sat result r) (sat part r)
  holds-attach join none part = refl
  holds-attach join_and (some c) part = laws.sat_both c part r
  holds-attach join_or (some c) part = laws.sat_either c part r

  -- One more condition in a chain selects what stood before it OR the condition if Or was called
  -- last, AND it otherwise, and stands alone in an empty chain, if the builder's And and Or are
  -- conjunction and disjunction.
  pub holds-where_op :
      (field : Bytes) (op : Op) (value : Value) (part : Cond) (qb : QueryBuilder)
      → condition_to_cond (record { field = field; op = op; value = value }) ≡ some part
      → holds sat (apply_where (where_op field op value qb)) r
        ≡ joined qb.next_join (apply_where qb) (holds sat (apply_where qb) r) (sat part r)
  unfolding apply_where where_op
  holds-where_op field op value part qb h =
      rw fold_nodes-snoc
        (rw (h, node_to_cond) (holds-attach qb.next_join (fold_nodes qb.nodes none) part))

  -- A group that has a condition is joined to the chain before it as that one condition, by the
  -- join of the group, whatever joins stand inside it.
  pub holds-group :
      (join : JoinKind) (fn : QueryBuilder → QueryBuilder) (part : Cond) (qb : QueryBuilder)
      → apply_where (fn new_query_builder) ≡ some part
      → holds sat (apply_where (group join fn qb)) r
        ≡ joined join (apply_where qb) (holds sat (apply_where qb) r) (sat part r)
  unfolding apply_where group
  holds-group join fn part qb h = go (fn new_query_builder).nodes h
    where
      go :
          (ns : ExprNodes)
          → fold_nodes ns none ≡ some part
          → holds sat (fold_nodes (add_group join ns qb).nodes none) r
            ≡ joined join
                (fold_nodes qb.nodes none)
                (holds sat (fold_nodes qb.nodes none) r)
                (sat part r)
      go nil e = absurd (unfold fold_nodes in cc)
      go (cons n ns) e =
          rw fold_nodes-snoc
            (rw (e, node_to_cond) (holds-attach join (fold_nodes qb.nodes none) part))

  -- What the filters demand of a row; one whose operator the code does not know demands nothing.
  abbrev pub demands : Option Cond → Bool
  demands none = true
  demands (some c) = sat c r

  abbrev pub all_hold : List Condition → Bool
  all_hold [] = true
  all_hold (f ∷ fs) = demands (condition_to_cond f) && all_hold fs

  -- A condition with an operator that the code does not know changes nothing.
  pub apply_where-where_op_unknown :
      (f : Condition) (qb : QueryBuilder)
      → condition_to_cond f ≡ none
      → apply_where (where_op f.field f.op f.value qb) ≡ apply_where qb
  unfolding apply_where where_op
  apply_where-where_op_unknown f qb h = rw fold_nodes-snoc (rw (h, node_to_cond))

  joined_and :
      (result : Option Cond) (part : Bool)
      → joined join_and result (holds sat result r) part ≡ holds sat result r && part
  joined_and none part = refl
  joined_and (some c) part = refl

  holds-where_op_and :
      (f : Condition) (qb : QueryBuilder)
      → qb.next_join ≡ join_and
      → holds sat (apply_where (where_op f.field f.op f.value qb)) r
        ≡ holds sat (apply_where qb) r && demands (condition_to_cond f)
  holds-where_op_and f qb h = elim (Option-cases (condition_to_cond f)) [
    | inl unknown ↦ rw (apply_where-where_op_unknown f qb unknown, unknown) (ground arith)
    | inr (part, known) ↦
        holds-where_op f.field f.op f.value part qb known
        ∙ simp (h, known) (joined_and (apply_where qb) (sat part r))
  ]

  holds-apply_filters_from :
      (fs : List Condition) (qb : QueryBuilder)
      → qb.next_join ≡ join_and
      → holds sat (apply_where (apply_filters fs qb)) r
        ≡ holds sat (apply_where qb) r && all_hold fs
  unfolding apply_filters
  holds-apply_filters_from [] qb h = ground arith
  holds-apply_filters_from (f ∷ fs) qb h = ground (
    arith,
    holds-apply_filters_from fs (where_op f.field f.op f.value qb) refl,
    holds-where_op_and f qb h,
  )

  -- The filters applied to a fresh builder select exactly the rows that meet every one of them,
  -- where a filter whose operator is unknown demands nothing.
  pub holds-apply_filters :
      (fs : List Condition)
      → holds sat (apply_where (apply_filters fs new_query_builder)) r ≡ all_hold fs
  unfolding new_query_builder apply_where
  holds-apply_filters fs = holds-apply_filters_from fs new_query_builder refl
