-- ===== src/Gen/Mask/Email.antt =====
-- What `maskEmail` leaves of an address.
use edg.Prelude.{
  ℕ, ◌+◌, [], ◌∷◌, ◌++◌, append-nil, none, some, false, ◌==◌, length, ◌≡◌, refl, ap, ◌∙◌, arith,
  ==_iff, All,
}
use edg.Prelude.Text.{Bytes}
use edg.Prelude.Slices.{drop-append}
use edg.Gen.Mask.{stars, last_index, from_index, mask_email}

last_index-none :
    (c : ℕ) (s : Bytes) (i : ℕ) → All (λ d. (d == c) ≡ false) s → last_index c s i ≡ none
unfolding last_index
last_index-none c [] i h = refl
last_index-none c (d ∷ s) i h = rw (last_index-none c s (i + 1) h.1, last_index) (rw h.0 refl)

-- The last occurrence, with none of the character behind it.
last_index-append :
    (c : ℕ) (s t : Bytes) (i : ℕ)
    → All (λ d. (d == c) ≡ false) t
    → last_index c (s ++ c ∷ t) i ≡ some (i + length s)
unfolding last_index
last_index-append c [] t i h =
    rw (last_index-none c t (i + 1) h, (==_iff c c).1 refl, last_index) (ap some (omega arith))
last_index-append c (d ∷ s) t i h =
    rw (last_index-append c s t (i + 1) h, last_index) (ap some (omega arith))

-- `maskEmail` puts asterisks, as many as the length says, in place of all that stands before the
-- last "@" of a text, and of the whole text if there is none.
pub mask_email-domain :
    (user domain : Bytes) (n : ℕ)
    → All (λ d. (d == b'@') ≡ false) domain
    → (mask_email (user ++ b'@' ∷ domain) n ≡ stars n ++ b'@' ∷ domain)
      × (mask_email domain n ≡ stars n)
unfolding mask_email from_index
mask_email-domain user domain n h = (
  ap (λ o. stars n ++ from_index o (user ++ b'@' ∷ domain)) (last_index-append b'@' user domain 0 h)
      ∙ ap (λ s. stars n ++ s) (drop-append (0 + length user) user (b'@' ∷ domain) (omega arith)),
  rw (last_index-none b'@' domain 0 h, mask_email) (append-nil (stars n)),
)
