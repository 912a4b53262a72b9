-- ===== src/Orchestrator/Template/Query.antt =====
-- The characters of an encoded query.
use lamdis_core.Prelude.{ℕ, ◌≡◌, refl, Bool, true, false, not, ◌||◌, [], ◌∷◌, arith, ◌==◌, all}
use lamdis_core.Text.{Text, contains}
use lamdis_core.Text.Maps.{Assoc}
use lamdis_core.Orchestrator.Escape.{query_escape}
use lamdis_core.Orchestrator.Escape.Laws.{is_query_char, query_escape-escaped, all-append}
use lamdis_core.Orchestrator.Template.{encode_query, encode_entries, sort_keys}

abbrev pub is_encoded : ℕ → Bool
is_encoded c = is_query_char c || c == b'&' || c == b'='

encoded_char : (c : ℕ) → is_query_char c ≡ true → is_encoded c ≡ true
encoded_char c h = ground arith

-- A test that follows from another for each character follows for a text.
pub all_mono :
    (p q : ℕ → Bool) (s : Text)
    → ((c : ℕ) → p c ≡ true → q c ≡ true)
    → all p s ≡ true
    → all q s ≡ true
all_mono p q [] f h = refl
all_mono p q (c ∷ s) f h = ground (arith, f c, all_mono p q s f)

escape-encoded : (s : Text) → all is_encoded (query_escape s) ≡ true
escape-encoded s =
    all_mono is_query_char is_encoded (query_escape s) encoded_char (query_escape-escaped s)

entries-encoded : (q : Assoc Text) → all is_encoded (encode_entries q) ≡ true
unfolding encode_entries
entries-encoded [] = refl
entries-encoded ((k, v) ∷ []) =
    all-append is_encoded (query_escape k) _ (escape-encoded k) (escape-encoded v)
entries-encoded ((k, v) ∷ e ∷ m) =
    all-append is_encoded (query_escape k) _ (escape-encoded k)
      (all-append is_encoded (query_escape v) _ (escape-encoded v) (entries-encoded (e ∷ m)))

contains_none : (d : ℕ) (s : Text) → all (λ c. not (c == d)) s ≡ true → contains d s ≡ false
unfolding contains
contains_none d [] h = refl
contains_none d (c ∷ s) h = ground (arith, contains_none d s)

no_brace : (c : ℕ) → is_encoded c ≡ true → not (c == b'{') ≡ true
no_brace c h = ground arith

-- No entry of a query brings a brace into the URL.
pub contains-encode_query : (q : Assoc Text) → contains b'{' (encode_query q) ≡ false
unfolding encode_query
contains-encode_query q = contains_none b'{' (encode_entries (sort_keys q)) (
    all_mono is_encoded (λ c. not (c == b'{')) (encode_entries (sort_keys q)) no_brace
      (entries-encoded (sort_keys q)))
