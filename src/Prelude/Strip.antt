-- ===== src/Prelude/Strip.antt =====
-- `strip_by` leaves a text alone that has nothing to strip.
use Prim.Native.Char.{Char}
use Prim.Native.String.{String, ◌++◌ as ◌<>◌}
use text.Mathlib.TextLemmas.{append-nil, append_assoc, cons-append, nil-append}
use derico_sandbox.Prelude.{arith, Bool, ap, false, refl, sym, ◌∙◌, ◌≡◌, ◌||◌}
use derico_sandbox.Prelude.Text.{any_char, drop_while, reverse, single, strip_by}

reverse-append : (s t : String) → reverse (s <> t) ≡ reverse t <> reverse s
unfolding reverse
reverse-append String.[] t = ap reverse (nil-append t) ∙ sym (append-nil (reverse t))
reverse-append (String.◌∷◌ c s) t =
    ap reverse (cons-append c s t)
    ∙ ap (λ u. u <> single c) (reverse-append s t)
    ∙ append_assoc (reverse t) (reverse s) (single c)

reverse-reverse : (s : String) → reverse (reverse s) ≡ s
unfolding reverse
reverse-reverse String.[] = refl
reverse-reverse (String.◌∷◌ c s) =
    reverse-append (reverse s) (single c)
    ∙ ap (λ u. u <> reverse (reverse s)) (nil-append (single c))
    ∙ cons-append c String.[] (reverse (reverse s))
    ∙ ap (λ u. String.◌∷◌ c u) (nil-append (reverse (reverse s)) ∙ reverse-reverse s)

any_char-append :
    (p : Char → Bool) (s t : String) → any_char p (s <> t) ≡ (any_char p s || any_char p t)
unfolding any_char
any_char-append p String.[] t = ap (any_char p) (nil-append t)
any_char-append p (String.◌∷◌ c s) t =
    ap (any_char p) (cons-append c s t) ∙ ground (arith, any_char-append p s t)

any_char-reverse : (p : Char → Bool) (s : String) → any_char p (reverse s) ≡ any_char p s
unfolding any_char reverse
any_char-reverse p String.[] = refl
any_char-reverse p (String.◌∷◌ c s) =
    any_char-append p (reverse s) (single c) ∙ ground (arith, any_char-reverse p s)

drop_while-none : (p : Char → Bool) (s : String) → any_char p s ≡ false → drop_while p s ≡ s
unfolding any_char drop_while
drop_while-none p String.[] h = refl
drop_while-none p (String.◌∷◌ c s) h = ground arith

pub strip_by-none : (p : Char → Bool) (s : String) → any_char p s ≡ false → strip_by p s ≡ s
unfolding strip_by
strip_by-none p s h =
    ap (λ u. reverse (drop_while p (reverse u))) (drop_while-none p s h)
    ∙ ap reverse (drop_while-none p (reverse s) (any_char-reverse p s ∙ h))
    ∙ reverse-reverse s
