-- ===== src/Recovery/Digests.antt =====
-- A SHA-256 text in a sidecar of recovery_contract.py: 64 lower-case hexadecimal digits, which `split` and
-- `lower` give back.
use Prim.Native.Char.{Char, code}
use text.Mathlib.TextLemmas.{nil-append, cons-append}
use liqi_platform.Prelude.{
  String, ◌<>◌, Bool, true, false, ◌&&◌, ◌||◌, ◌≡◌, refl, ap, ◌∙◌, leb, arith, and-parts,
}
use liqi_platform.Prelude.Texts.{size, is_space, word, left_strip, first_word, lower}

abbrev is_digit : Char → Bool
is_digit c = let n = code c in (leb b'0' n && leb n b'9') || (leb b'a' n && leb n b'f')

abbrev pub all_digits : String → Bool
all_digits String.[] = true
all_digits (String.◌∷◌ c s) = is_digit c && all_digits s

pub record IsDigest (s : String) : Type 0 where
  pub length : size s ≡ 64
  pub digits : all_digits s ≡ true

digit-space : (c : Char) → is_digit c ≡ true → is_space c ≡ false
digit-space c h = ground arith

word-digits : (s rest : String) → all_digits s ≡ true → word (s <> (String.◌∷◌ " " rest)) ≡ s
unfolding word
word-digits String.[] rest h = rw (nil-append (String.◌∷◌ " " rest)) refl
word-digits (String.◌∷◌ c s) rest h =
    let (d, e) = and-parts (is_digit c) (all_digits s) h in
    rw (cons-append c s (String.◌∷◌ " " rest), digit-space c d, word-digits s rest e)

lower-digits : (s : String) → all_digits s ≡ true → lower s ≡ s
unfolding lower
lower-digits String.[] h = refl
lower-digits (String.◌∷◌ c s) h =
    let (d, e) = and-parts (is_digit c) (all_digits s) h in ground (arith, lower-digits s e)

left_strip-digits :
    (s rest : String) → all_digits s ≡ true → size s ≡ 64 → left_strip (s <> rest) ≡ s <> rest
unfolding left_strip
left_strip-digits String.[] rest h n = absurd (omega arith)
left_strip-digits (String.◌∷◌ c s) rest h n =
    let (d, e) = and-parts (is_digit c) (all_digits s) h in
    rw (cons-append c s rest, digit-space c d) refl

-- What `expected_checksum` finds in a line of a digest and a name.
pub first_word-digest : (s rest : String) → IsDigest s → first_word (s <> ("  " <> rest)) ≡ s
unfolding first_word
first_word-digest s rest d =
    let e : s <> ("  " <> rest) ≡ s <> (String.◌∷◌ " " (" " <> rest)) =
      ap (λ x. s <> x) (cons-append " " " " rest) in
    ap word (left_strip-digits s ("  " <> rest) d.digits d.length)
    ∙ ap word e
    ∙ word-digits s (" " <> rest) d.digits

pub lower-digest : (s : String) → IsDigest s → lower s ≡ s
lower-digest s d = lower-digits s d.digits
