-- ===== src/Prelude/Text.antt =====
-- Tests on texts, stripping, cutting and printing.
use Prim.Native.Nat.{ℕ, zero, suc, ◌+◌, ◌/◌, ◌%◌, ◌≤◌, min}
use mathlib.Core.Path.{◌≡◌, refl, ap}
use native.Mathlib.Omega.{arith}
use Prim.Native.Char.{code}
use Prim.Native.String.{String, ◌++◌}
use mathlib.Core.Bool.{Bool, false, ◌&&◌, ◌||◌}
use mathlib.Core.List.{List, [], ◌∷◌}
use text.Mathlib.TextLemmas.{nil-append, cons-append}
use text.Mathlib.Text.{starts_with, ◌==◌ as str_eq}
use agent_demo.Prelude.Tests.{leb, ◌==◌, if◌then◌else◌}

-- `needle in text`
unfoldable pub contains : String → String → Bool
contains needle String.[] = starts_with String.[] needle
contains needle (String.◌∷◌ c text) = starts_with (String.◌∷◌ c text) needle || contains needle text

-- `any(marker in text for marker in markers)`
unfoldable pub contains_any : List String → String → Bool
unfolding contains
contains_any [] text = false
contains_any (marker ∷ markers) text = contains marker text || contains_any markers text

-- `word in words`
unfoldable pub member : String → List String → Bool
member word [] = false
member word (w ∷ words) = str_eq w word || member word words

-- The characters that `str.isspace` accepts.
unfoldable pub is_space : ℕ → Bool
is_space c =
    leb 9 c && leb c 13
    || leb 28 c && leb c 32
    || c == 133
    || c == 160
    || c == 5760
    || leb 8192 c && leb c 8202
    || c == 8232
    || c == 8233
    || c == 8239
    || c == 8287
    || c == 12288

unfoldable pub lstrip : String → String
unfolding is_space
lstrip String.[] = String.[]
lstrip (String.◌∷◌ c text) = if is_space (code c) then lstrip text else String.◌∷◌ c text

unfoldable pub rstrip : String → String
unfolding is_space
rstrip String.[] = String.[]
rstrip (String.◌∷◌ c text) =
    let rest = rstrip text in
    if is_space (code c) && str_eq rest "" then String.[] else String.◌∷◌ c rest

-- `text.strip()`
unfoldable pub strip : String → String
unfolding lstrip rstrip
strip text = lstrip (rstrip text)

-- `text[:n]`
unfoldable pub cut : ℕ → String → String
cut zero text = String.[]
cut (suc n) String.[] = String.[]
cut (suc n) (String.◌∷◌ c text) = String.◌∷◌ c (cut n text)

digit : ℕ → String
digit zero = "0"
digit (suc zero) = "1"
digit (suc (suc zero)) = "2"
digit (suc (suc (suc zero))) = "3"
digit (suc (suc (suc (suc zero)))) = "4"
digit (suc (suc (suc (suc (suc zero))))) = "5"
digit (suc (suc (suc (suc (suc (suc zero)))))) = "6"
digit (suc (suc (suc (suc (suc (suc (suc zero))))))) = "7"
digit (suc (suc (suc (suc (suc (suc (suc (suc zero)))))))) = "8"
digit _ = "9"

-- The fuel is the number itself, which has fewer digits than that.
digits : ℕ → ℕ → String → String
unfolding digit
digits zero n done = digit (n % 10) ++ done
digits (suc fuel) n done =
    let rest = digits fuel (n / 10) (digit (n % 10) ++ done) in
    if n / 10 == 0 then digit (n % 10) ++ done else rest

-- `str(n)`
unfoldable pub decimal : ℕ → String
unfolding digits
decimal n = digits n n String.[]

-- The parts of an f-string, joined.
unfoldable pub concat : List String → String
concat [] = String.[]
concat (part ∷ parts) = part ++ concat parts

-- `len(text)`
unfoldable pub text_length : String → ℕ
text_length String.[] = 0
text_length (String.◌∷◌ c text) = suc (text_length text)

pub text_length-cut : (n : ℕ) (text : String) → text_length (cut n text) ≡ min n (text_length text)
unfolding text_length cut
text_length-cut zero text = omega arith
text_length-cut (suc n) String.[] = omega arith
text_length-cut (suc n) (String.◌∷◌ c text) = omega (arith, text_length-cut n text)

pub cut_all : (n : ℕ) (text : String) → text_length text ≤ n → cut n text ≡ text
unfolding text_length cut
cut_all zero String.[] h = refl
cut_all zero (String.◌∷◌ c text) h = absurd (omega arith)
cut_all (suc n) String.[] h = refl
cut_all (suc n) (String.◌∷◌ c text) h = ap (λ t. String.◌∷◌ c t) (cut_all n text (omega arith))

text_length-append : (a b : String) → text_length (a ++ b) ≡ text_length a + text_length b
unfolding text_length
text_length-append String.[] b = rw (nil-append b) (omega arith)
text_length-append (String.◌∷◌ c a) b =
    rw (cons-append c a b) (omega (arith, text_length-append a b))

pub text_length-concat :
    (part : String) (parts : List String)
    → text_length (concat (part ∷ parts)) ≡ text_length part + text_length (concat parts)
unfolding concat
text_length-concat part parts = text_length-append part (concat parts)
