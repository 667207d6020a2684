-- ===== src/Examples/Strokes.antt =====
-- A text for every number: as many strokes.
use Prim.Native.String.{String, [], ◌∷◌}
use Prim.Native.Char.{nul}
use nexocrypto.Telegram.Control.{UuidText}
use nexocrypto.Prelude.{ℕ, zero, suc, ◌≡◌, refl, ap, some}

strokes : ℕ → String
strokes zero = []
strokes (suc n) = nul ∷ strokes n

count_strokes : String → ℕ
count_strokes [] = 0
count_strokes (c ∷ s) = suc (count_strokes s)

count_strokes-strokes : (n : ℕ) → count_strokes (strokes n) ≡ n
unfolding strokes count_strokes
count_strokes-strokes zero = refl
count_strokes-strokes (suc n) = ap suc (count_strokes-strokes n)

pub stroke_text : UuidText
stroke_text = record {
  hex = strokes;
  of_hex = λ s. some (count_strokes s);
  of_hex-hex = λ id. ap (λ (n : ℕ). some n) (count_strokes-strokes id);
}
