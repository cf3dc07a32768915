-- ===== src/Runtime/Recording.antt =====
-- crates/hale-runtime/src/record.rs: the key of a request and the recorded outcomes. A file is
-- read and written through serde_json, which is left out.
use Prim.Native.String
use Prim.Native.String.{compare}
use text.Mathlib.Text.{is_lt}
use tired.Prelude.{
  String, Option, none, Bool, true, false, if◌then◌else◌, List, [], ◌∷◌, concat, join, lookup,
}
use tired.Runtime.Value.{Outcome}

abbrev pub Query : Type 0
Query = List (String × String)

-- The order of pairs of texts.
pair_less : String × String → String × String → Bool
pair_less (k, v) (j, w) = is_lt (String.then (compare k j) (compare v w))

insert_pair : String × String → Query → Query
insert_pair x [] = x ∷ []
insert_pair x (y ∷ ys) = if pair_less y x then y ∷ insert_pair x ys else x ∷ y ∷ ys

-- `q.sort()`
unfoldable pub sort_query : Query → Query
unfolding pair_less insert_pair
sort_query [] = []
sort_query (x ∷ xs) = insert_pair x (sort_query xs)

query_parts : Query → List String
query_parts [] = []
query_parts ((k, v) ∷ q) = concat (k ∷ "=" ∷ v ∷ []) ∷ query_parts q

query_text : Query → String
unfolding query_parts
query_text [] = ""
query_text (x ∷ q) = concat ("?" ∷ join "&" (query_parts (x ∷ q)) ∷ [])

unfoldable pub request_key : String → String → String → Query → String
unfolding query_text
request_key method endpoint path query =
    concat (method ∷ " " ∷ endpoint ∷ path ∷ query_text (sort_query query) ∷ [])

-- The recordings by key, the newest first.
pub data RecordMode : Type 0 where
  off : RecordMode
  record_into replay : List (String × Outcome) → RecordMode

unfoldable pub recorded : String → RecordMode → Option Outcome
recorded key (replay m) = lookup key m
recorded key _ = none

unfoldable pub is_replay : RecordMode → Bool
is_replay (replay _) = true
is_replay _ = false

unfoldable pub store_outcome : String → Outcome → RecordMode → RecordMode
store_outcome key out (record_into m) = record_into ((key, out) ∷ m)
store_outcome key out mode = mode
