-- ===== src/Telegram/Texts.antt =====
-- `raw.partition(":")`, on texts that have a colon, and the text that `f"{a}:{b}"` makes.
use Prim.Native.String.append
use Prim.Native.String.{String, [], ◌∷◌, ◌++◌}
use Prim.Native.Char.{code}
use nexocrypto.Prelude.{
  ◌==◌, ◌≡◌, ◌∙◌, Option, none, some, false, map_option, if◌then◌else◌, ap, refl,
}

-- `f"{a}:{b}"`
abbrev pub with_colon : String → String → String
with_colon a b = a ++ (":" ++ b)

-- The text before the first colon, and the one after it.
unfoldable pub partition_colon : String → Option (String × String)
partition_colon [] = none
partition_colon (c ∷ s) =
    if code c == 58
    then some ([], s)
    else map_option (λ (p : String × String). (c ∷ p.0, p.1)) (partition_colon s)

-- A text without a colon.
unfoldable pub NoColon : String → Type 0
NoColon [] = Unit
NoColon (c ∷ s) = ((code c == 58) ≡ false) × NoColon s

pub partition_colon-with_colon :
    (s t : String) → NoColon s → partition_colon (with_colon s t) ≡ some (s, t)
unfolding NoColon partition_colon
partition_colon-with_colon [] t h =
    ap partition_colon (append.nil (":" ++ t) ∙ append.cons _ [] t)
    ∙ ap (λ (x : String). some ([], x)) (append.nil t)
partition_colon-with_colon (c ∷ s) t (h, hs) =
    ap partition_colon (append.cons c s (":" ++ t)) ∙ rw (h, partition_colon-with_colon s t hs) refl
