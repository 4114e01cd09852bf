-- ===== src/Database.antt =====
-- src/database.cpp: how a query takes its parameters, and which connection it takes.
pub mod Queries
pub mod Background
use triviabot.Common.{
  ℕ, zero, suc, ◌+◌, ◌-◌, Bool, true, false, not, ◌&&◌, List, [], ◌∷◌, ◌++◌, Option, none, some,
  ltb, leb, ◌==◌, if◌then◌else◌, length, get_elem?,
}
use triviabot.Text.{Text}

-- The loop of real_query: the parameters stand for the question marks in their order, and the last
-- one for all that are left.
unfoldable pub substitute_loop : List Text → (param : ℕ) → Text → Text
substitute_loop params param [] = []
substitute_loop params param (v ∷ format) =
    let next = if param == length params - 1 then param else param + 1 in
    let then_ = substitute_loop params next format in
    let same = substitute_loop params param format in
    if v == b'?' && leb (param + 1) (length params)
    then elim (get_elem? params param) [ none ↦ same | some p ↦ p ++ then_ ]
    else v ∷ same

-- real_query, as far as the text: `escape` is mysql_real_escape_string, which may fail.
unfoldable pub escape_all : (Text → Option Text) → List Text → List Text
escape_all escape [] = []
escape_all escape (p ∷ ps) =
    let rest = escape_all escape ps in elim (escape p) [ none ↦ rest | some e ↦ e ∷ rest ]

unfoldable pub query_text : (Text → Option Text) → Text → List Text → Option Text
unfolding escape_all substitute_loop
query_text escape format params =
    let escaped = escape_all escape params in
    if length params == length escaped then some (substitute_loop escaped 0 format) else none

abbrev pub pool_size : ℕ
pool_size = 10

-- The loop of query: from connection `c` with `curr_index`, busy connections are skipped for as many
-- tries as are left.
unfoldable pub skip_busy : (ℕ → Bool) → (left c curr_index : ℕ) → ℕ × ℕ
skip_busy busy zero c curr_index = (c, curr_index)
skip_busy busy (suc left) c curr_index =
    let next : ℕ = if leb pool_size (curr_index + 1) then 0 else curr_index + 1 in
    let rest = skip_busy busy left next next in if busy c then rest else (c, curr_index)

-- The connection that query takes, and `curr_index` after it.
unfoldable pub take_connection : (ℕ → Bool) → (curr_index : ℕ) → ℕ × ℕ
unfolding skip_busy
take_connection busy curr_index =
    if leb pool_size curr_index
    then skip_busy busy (pool_size + 1) 0 0
    else skip_busy busy (pool_size + 1) curr_index (curr_index + 1)
