-- ===== src/Pool/Secrets/Seeds.antt =====
-- The seeds of an environment variable, against a description of the list without the loop.
use mathlib.Core.List.{reverse, reverse-append, reverse-reverse, append-nil, append_assoc}
use tx_submitter.Base.{
  ℕ, ◌≡◌, ◌≢◌, refl, sym, ap, ◌∙◌, subst, Bool, true, false, List, [], ◌∷◌, ◌++◌, map, where_, All,
  arith, ◌⊎◌, inl, inr, Bool-cases, ◌==◌, ◌!=◌, ◌↔◌,
}
use tx_submitter.Base.Text.{Text, text_eq, split, trim, trim_left, trim_space, is_space}
use tx_submitter.Errors.{Result, ok, err, is_ok}
use tx_submitter.External.{Env}
use tx_submitter.Pool.Secrets.{
  new_env_secret_source, collect_secrets, not_empty, channel_account_secrets,
}

-- The entries of the list that are not empty, without the spaces around them.
abbrev pub entries : List Text → List Text
entries parts = where_ (λ s. s != []) (map trim_space parts)

abbrev pub seeds : Text → List Text
seeds raw = entries (split b',' raw)

abbrev pub IsValid : Env → Text → Type 0
IsValid e s = is_ok (e.parse_full s) ≡ true

trim_left_cases :
    (cut : ℕ → Bool) (s : Text)
    → All (λ c. cut c ≡ true) s
      ⊎ ((c : ℕ) × (t : Text) × (trim_left cut s ≡ c ∷ t) × (cut c ≡ false))
unfolding trim_left
trim_left_cases cut [] = inl tt
trim_left_cases cut (c ∷ s) = elim (Bool-cases (cut c)) [
  | inl gone ↦ elim (trim_left_cases cut s) [
    | inl rest ↦ inl (gone, rest)
    | inr (d, t, kept, stays) ↦ inr (d, t, (ground arith), stays)
  ]
  | inr stays ↦ inr (c, s, (ground arith), stays)
]

trim_left-snoc :
    (cut : ℕ → Bool) (s : Text) (c : ℕ) → cut c ≡ false → trim_left cut (s ++ (c ∷ [])) ≢ []
unfolding trim_left
trim_left-snoc cut [] c stays h = ground arith
trim_left-snoc cut (d ∷ s) c stays h = ground (arith, trim_left-snoc cut s c stays)

-- Only a text of spaces is trimmed to nothing.
trim_empty : (cut : ℕ → Bool) (s : Text) → trim cut s ≡ [] → All (λ c. cut c ≡ true) s
unfolding trim
trim_empty cut s h = elim (trim_left_cases cut s) [
  | inl all ↦ all
  | inr (c, t, kept, stays) ↦ absurd (
      trim_left-snoc cut (reverse t) c stays (
        sym (ap (trim_left cut) (ap reverse kept ∙ reverse-append (c ∷ []) t))
        ∙ sym (reverse-reverse (trim_left cut (reverse (trim_left cut s))))
        ∙ ap reverse h))
]

split-spaces : (s : Text) → All (λ c. is_space c ≡ true) s → split b',' s ≡ s ∷ []
unfolding split is_space
split-spaces [] h = refl
split-spaces (c ∷ s) h = ground (arith, h.0, split-spaces s h.1)

seeds-blank : (raw : Text) → trim_space raw ≡ [] → seeds raw ≡ []
unfolding trim_space
seeds-blank raw blank =
    ap entries (split-spaces raw (trim_empty is_space raw blank)) ∙ ground (arith, blank)

entries-blank :
    (p : Text) (parts : List Text)
    → (trim_space p == []) ≡ true
    → entries (p ∷ parts) ≡ entries parts
entries-blank p parts blank = ground arith

entries-more :
    (p : Text) (parts : List Text)
    → (trim_space p == []) ≡ false
    → entries (p ∷ parts) ≡ trim_space p ∷ entries parts
entries-more p parts more = ground arith

module _ (e : Env) where
  abbrev collected : List Text → List Text → Result (List Text)
  collected secrets parts = ok (secrets ++ entries parts)

  collected-more :
      (p : Text) (secrets parts : List Text)
      → (trim_space p == []) ≡ false
      → collected (secrets ++ (trim_space p ∷ [])) parts ≡ collected secrets (p ∷ parts)
  collected-more p secrets parts more = ap ok (
      append_assoc secrets (trim_space p ∷ []) (entries parts)
      ∙ ap (λ rest. secrets ++ rest) (sym (entries-more p parts more)))

  collect_valid :
      (parts secrets : List Text)
      → All (IsValid e) (entries parts)
      → collect_secrets e parts secrets ≡ collected secrets parts
  unfolding collect_secrets
  collect_valid [] secrets valid = ap ok (sym (append-nil secrets))
  collect_valid (p ∷ parts) secrets valid = elim (Bool-cases (trim_space p == [])) [
    | inl blank ↦
        let rest =
          collect_valid parts secrets
            (subst (All (IsValid e)) (entries-blank p parts blank) valid) in
        rw (blank, entries-blank p parts blank) rest
    | inr more ↦
        let (first, others) = subst (All (IsValid e)) (entries-more p parts more) valid in
        let rest = collect_valid parts (secrets ++ (trim_space p ∷ [])) others in
        ground (arith, first, rest, collected-more p secrets parts more)
  ]

  collect_ok :
      (parts secrets out : List Text)
      → collect_secrets e parts secrets ≡ ok out
      → All (IsValid e) (entries parts)
  unfolding collect_secrets
  collect_ok [] secrets out got = tt
  collect_ok (p ∷ parts) secrets out got = elim (Bool-cases (trim_space p == [])) [
    | inl blank ↦
        subst (All (IsValid e)) (sym (entries-blank p parts blank))
          (collect_ok parts secrets out (ground arith))
    | inr more ↦
        subst (All (IsValid e)) (sym (entries-more p parts more))
          (ground arith, collect_ok parts (secrets ++ (trim_space p ∷ [])) out (ground arith))
  ]

  not_empty_ok :
      (var_name : Text) (found : List Text) → found ≢ [] → not_empty e var_name found ≡ ok found
  not_empty_ok var_name [] some_seed = absurd (some_seed refl)
  not_empty_ok var_name (s ∷ found) some_seed = refl

  ok_not_empty :
      (var_name : Text) (found secrets : List Text)
      → not_empty e var_name found ≡ ok secrets
      → (secrets ≡ found) × (secrets ≢ [])
  ok_not_empty var_name [] secrets got = absurd (ground arith)
  ok_not_empty var_name (s ∷ found) secrets got = (ground arith, λ gone. ground arith)

  valid_seeds :
      (var_name : Text)
      → seeds (e.getenv var_name) ≢ []
      → All (IsValid e) (seeds (e.getenv var_name))
      → channel_account_secrets e (new_env_secret_source var_name) ≡ ok (seeds (e.getenv var_name))
  unfolding channel_account_secrets
  valid_seeds var_name some_seed valid = elim (Bool-cases (trim_space (e.getenv var_name) == [])) [
    | inl blank ↦ absurd (some_seed (seeds-blank (e.getenv var_name) (ground arith)))
    | inr more ↦
        let found = collect_valid (split b',' (e.getenv var_name)) [] valid in
        rw (more, found) (not_empty_ok var_name (seeds (e.getenv var_name)) some_seed)
  ]

  collected_seeds :
      (var_name : Text) (r : Result (List Text)) (secrets : List Text)
      → collect_secrets e (split b',' (e.getenv var_name)) [] ≡ r
      → (elim r [ err er ↦ err er | ok found ↦ not_empty e var_name found ]) ≡ ok secrets
      → (secrets ≡ seeds (e.getenv var_name)) × (secrets ≢ []) × All (IsValid e) secrets
  collected_seeds var_name (err er) secrets ran got = absurd (ground arith)
  collected_seeds var_name (ok found) secrets ran got =
      let valid = collect_ok (split b',' (e.getenv var_name)) [] found ran in
      let (same, some_seed) = ok_not_empty var_name found secrets got in
      let all_of : secrets ≡ seeds (e.getenv var_name) =
        ground (arith, collect_valid (split b',' (e.getenv var_name)) [] valid) in
      (all_of, some_seed, subst (All (IsValid e)) (sym all_of) valid)

  ok_seeds :
      (var_name : Text) (secrets : List Text)
      → channel_account_secrets e (new_env_secret_source var_name) ≡ ok secrets
      → (secrets ≡ seeds (e.getenv var_name)) × (secrets ≢ []) × All (IsValid e) secrets
  unfolding channel_account_secrets
  ok_seeds var_name secrets got = elim (Bool-cases (trim_space (e.getenv var_name) == [])) [
    | inl blank ↦ absurd (ground arith)
    | inr more ↦ collected_seeds var_name _ secrets refl (rw more at got)
  ]

  -- `ChannelAccountSecrets` returns a list exactly if it is the list of the variable's entries
  -- between commas, trimmed and without the empty ones, is not empty, and each of its seeds is one
  -- that the SDK parses.
  pub channel_account_secrets_iff :
      (var_name : Text) (secrets : List Text)
      → (channel_account_secrets e (new_env_secret_source var_name) ≡ ok secrets)
        ↔ ((secrets ≡ seeds (e.getenv var_name)) × (secrets ≢ []) × All (IsValid e) secrets)
  channel_account_secrets_iff var_name secrets = (
    ok_seeds var_name secrets,
    λ (same, some_seed, valid).
        valid_seeds var_name (subst (λ l. l ≢ []) same some_seed)
          (subst (All (IsValid e)) same valid)
        ∙ ap ok (sym same),
  )
