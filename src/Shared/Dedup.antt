-- ===== src/Shared/Dedup.antt =====
-- packages/shared/src/nexocrypto_shared/dedup.py, for parts that are texts or decimals; `dedup_hash`
-- is the call with texts only. SHA-256 and Python's `str.strip` and `str.lower` over Unicode are
-- arguments.
use Prim.Native.String.{◌++◌}
use nexocrypto.Prelude.{String, List, [], ◌∷◌, map, ℤ}
use nexocrypto.Decimal.{Decimal}
use nexocrypto.Shared.Models.{Datetime}

-- What `hashlib` and the text methods provide.
pub record Hashing : Type 0 where
  pub sha256_hexdigest : String → String
  pub strip : String → String
  pub lower : String → String

-- Python's texts of values: `format(d.normalize(), "f")`, `t.isoformat()` and `str(n)`.
pub record Formatting : Type 0 where
  pub decimal_text : Decimal → String
  pub isoformat : Datetime → String
  pub int_text : ℤ → String

-- An argument of `dedup_hash`.
pub data Part : Type 0 where
  text : String → Part
  number : Decimal → Part

-- `"|".join(parts)`
abbrev join : List String → String
join [] = ""
join (p ∷ []) = p
join (p ∷ ps) = p ++ "|" ++ join ps

module _ (h : Hashing) where
  open h use {sha256_hexdigest, strip, lower}

  normalize : String → String
  normalize s = lower (strip s)

  unfoldable pub dedup_hash : List String → String
  unfolding normalize
  dedup_hash parts = sha256_hexdigest (join (map normalize parts))

  module _ (f : Formatting) where
    normalize_part : Part → String
    unfolding normalize
    normalize_part (text s) = normalize s
    normalize_part (number d) = f.decimal_text d

    unfoldable pub dedup_hash_of : List Part → String
    unfolding normalize_part
    dedup_hash_of parts = sha256_hexdigest (join (map normalize_part parts))
