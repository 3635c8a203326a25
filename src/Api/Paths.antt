-- ===== src/Api/Paths.antt =====
-- The id in the path of a request.
use mathlib.Core.List.{reverse, reverse_aux, reverse-append, reverse-reverse}
use tx_submitter.Base.{
  ℕ, ◌≡◌, ◌≢◌, refl, sym, ap, ◌∙◌, Bool, false, [], ◌∷◌, ◌++◌, arith, All, ◌==ℕ◌,
}
use tx_submitter.Base.Text.{Text, text_eq, codes, split, trim, trim_left}
use tx_submitter.Api.{extract_id_from_path, id_after}

abbrev slash : ℕ → Bool
slash c = c ==ℕ b'/'

-- No character of the text is a slash.
abbrev pub NoSlash : Text → Type 0
NoSlash = All (λ c. slash c ≡ false)

split-NoSlash : (s : Text) → NoSlash s → split b'/' s ≡ s ∷ []
unfolding split
split-NoSlash [] h = refl
split-NoSlash (c ∷ s) h = ground (arith, split-NoSlash s h.1)

split-append : (s t : Text) → NoSlash s → split b'/' (s ++ (b'/' ∷ t)) ≡ s ∷ split b'/' t
unfolding split
split-append [] t h = refl
split-append (c ∷ s) t h = ground (arith, split-append s t h.1)

reverse_aux-NoSlash : (s t : Text) → NoSlash s → NoSlash t → NoSlash (reverse_aux s t)
reverse_aux-NoSlash [] t h k = k
reverse_aux-NoSlash (c ∷ s) t h k = reverse_aux-NoSlash s (c ∷ t) h.1 (h.0, k)

reverse-nonempty : (s : Text) → s ≢ [] → reverse s ≢ []
reverse-nonempty s nonempty h = nonempty (sym (reverse-reverse s) ∙ ap reverse h)

trim_left-append : (s t : Text) → NoSlash s → s ≢ [] → trim_left slash (s ++ t) ≡ s ++ t
unfolding trim_left
trim_left-append [] t h nonempty = ground arith
trim_left-append (c ∷ s) t h nonempty = ground arith

trim-transactions :
    (id : Text)
    → NoSlash id
    → id ≢ []
    → trim slash (codes "/transactions/" ++ id) ≡ codes "transactions/" ++ id
unfolding trim trim_left
trim-transactions id h nonempty =
    ap reverse (
      ap (trim_left slash) (reverse-append (codes "transactions/") id)
      ∙ trim_left-append (reverse id) (reverse (codes "transactions/"))
          (reverse_aux-NoSlash id [] h tt) (reverse-nonempty id nonempty)
      ∙ sym (reverse-append (codes "transactions/") id))
    ∙ reverse-reverse (codes "transactions/" ++ id)

-- For an id that is not empty and has no slash, `extractIDFromPath` of the path of its transaction
-- is the id.
pub extract_id_from_path-append :
    (id : Text) → NoSlash id → id ≢ [] → extract_id_from_path (codes "/transactions/" ++ id) ≡ id
unfolding extract_id_from_path id_after text_eq
extract_id_from_path-append id h nonempty =
    ap (λ s. id_after (split b'/' s)) (trim-transactions id h nonempty)
    ∙ ap id_after (
        split-append (codes "transactions") id (ground arith)
        ∙ ap (λ fs. codes "transactions" ∷ fs) (split-NoSlash id h))
