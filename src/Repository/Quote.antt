-- ===== src/Repository/Quote.antt =====
-- quoteIdent and quoteOrderBy of pkg/repository/query.go: column names in back quotes.
use go_admin.Common.{
  ℕ, suc, ◌≡◌, refl, Bool, List, [], ◌∷◌, ◌++◌, map, if◌then◌else◌, ◌==◌, ◌&&◌, ◌||◌, text_eq,
  nat_eq, Bytes, bytes, has_prefix, has_suffix, has_byte, trim_space, split, join, fields,
}

-- strings.Count(s, "`")
unfoldable pub count_byte : ℕ → Bytes → ℕ
count_byte b [] = 0
count_byte b (c ∷ s) = if c == b then suc (count_byte b s) else count_byte b s

-- strings.ReplaceAll(s, "`", "``")
unfoldable pub double_quotes : Bytes → Bytes
double_quotes [] = []
double_quotes (c ∷ s) = if c == b'`' then b'`' ∷ b'`' ∷ double_quotes s else c ∷ double_quotes s

-- Already in back quotes, with none inside.
unfoldable pub is_quoted : Bytes → Bool
unfolding count_byte
is_quoted name =
    has_prefix name (b'`' ∷ []) && has_suffix name (b'`' ∷ []) && count_byte b'`' name == 2

unfoldable pub wrap_quotes : Bytes → Bytes
unfolding double_quotes
wrap_quotes name = b'`' ∷ (double_quotes name ++ b'`' ∷ [])

-- quoteIdent on a part between dots, where no dot is left to split at.
unfoldable pub quote_part : Bytes → Bytes
unfolding is_quoted wrap_quotes
quote_part raw =
    let name = trim_space raw in
    if name == [] || name == bytes "*"
    then name
    else if is_quoted name
    then name
    else wrap_quotes name

-- quoteIdent
unfoldable pub quote_ident : Bytes → Bytes
unfolding quote_part
quote_ident raw =
    let name = trim_space raw in
    if name == [] || name == bytes "*"
    then name
    else if is_quoted name
    then name
    else if has_byte b'.' name
    then join (bytes ".") (map quote_part (split b'.' name))
    else wrap_quotes name

-- The loop of quoteOrderBy over one chunk: the first word is the column.
unfoldable pub quote_words : List Bytes → Bytes
unfolding quote_ident
quote_words [] = []
quote_words (w ∷ ws) = join (bytes " ") (quote_ident w ∷ ws)

-- A chunk with no word is left out.
abbrev quote_chunk : List Bytes → List Bytes → List Bytes
quote_chunk [] rest = rest
quote_chunk (w ∷ ws) rest = quote_words (w ∷ ws) ∷ rest

unfoldable pub quote_chunks : List Bytes → List Bytes
unfolding quote_words
quote_chunks [] = []
quote_chunks (chunk ∷ chunks) = quote_chunk (fields chunk) (quote_chunks chunks)

-- quoteOrderBy
unfoldable pub quote_order_by : Bytes → Bytes
unfolding quote_chunks
quote_order_by raw =
    let expr = trim_space raw in
    if expr == [] then expr else join (bytes ", ") (quote_chunks (split b',' expr))

quote_order_by_words :
    quote_order_by (bytes " key ASC, u.id DESC") ≡ bytes "`key` ASC, `u`.`id` DESC"
unfolding quote_order_by
quote_order_by_words = refl
