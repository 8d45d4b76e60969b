-- ===== src/Core/Market.antt =====
-- crates/arbkit-core/src/market.rs: handicap lines and market kinds.
-- A line is an i32 of hundredths; negating the least i32, which Rust refuses, is not modelled.
use arbkit.Prelude.{◌+◌, ◌%◌, ◌≡◌, Bool, false, arith, ◌==◌}
use arbkit.Prelude.Int.{ℤ, pos, negsuc, pos_part, neg_part, sub_ℕ}

pub record Line : Type 0 where
  pub hundredths : ℤ

pub data MarketKind : Type 0 where
  moneyline : MarketKind
  spread : Line → MarketKind
  total : Line → MarketKind

pub mirrored : Line → Line
mirrored l = record { hundredths = sub_ℕ (neg_part l.hundredths) (pos_part l.hundredths) }

-- The remainder of a negative number is the negated remainder of its magnitude: zero together.
pub line_can_push : Line → Bool
line_can_push l = (pos_part l.hundredths + neg_part l.hundredths) % 100 == 0

pub can_push : MarketKind → Bool
unfolding line_can_push
can_push moneyline = false
can_push (spread line) = line_can_push line
can_push (total line) = line_can_push line

-- Seeing a line from the other side twice gives the line back, and a line can push exactly when
-- the mirrored one can.
pub mirrored_involutive :
    (l : Line)
    → (mirrored (mirrored l) ≡ l) × (can_push (spread (mirrored l)) ≡ can_push (spread l))
unfolding mirrored can_push
mirrored_involutive l = mirror_hundredths l.hundredths
  where
    mirror_hundredths :
        (h : ℤ)
        → (mirrored (mirrored (record { hundredths = h })) ≡ record { hundredths = h })
          × (can_push (spread (mirrored (record { hundredths = h })))
              ≡ can_push (spread (record { hundredths = h })))
    mirror_hundredths (pos n) = ground arith
    mirror_hundredths (negsuc n) = ground arith
