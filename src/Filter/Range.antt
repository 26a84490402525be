-- ===== src/Filter/Range.antt =====
-- nfq2/filter.c, `packet_pos_parse` and `packet_range_parse`: ranges of the packets of a
-- connection.
use zapret.Base.{ℕ, List, [], ◌∷◌, Option, none, some, Bool, false, not, ◌||◌, ◌==◌, if◌then◌else◌}
use zapret.Memory.{◌>>=◌}
use zapret.Filter.{starts_with, dash}

-- `mode` is a letter.
pub record PacketPos : Type 0 where
  pub mode : ℕ
  pub pos : ℕ

pub record PacketRange : Type 0 where
  pub from : PacketPos
  pub to : PacketPos
  pub upper_cutoff : Bool

-- PACKET_POS_ALWAYS.
abbrev pub packet_pos_always : PacketPos
packet_pos_always = record { mode = 97; pos = 0 }

-- 'n', 'd', 's', 'p', 'b', 'x' and 'a'.
unfoldable pub is_mode : ℕ → Bool
is_mode c =
    c == 110 || (c == 100) || (c == 115) || (c == 112) || (c == 98) || (c == 120) || (c == 97)

-- "<"
abbrev pub less : ℕ
less = 60

-- `strchr`: the text from the first such character on.
unfoldable pub strchr : ℕ → List ℕ → Option (List ℕ)
strchr c [] = none
strchr c (b ∷ bs) = let rest = strchr c bs in if b == c then some (b ∷ bs) else rest

unfoldable pub or_less : List ℕ → Option (List ℕ) → Option (List ℕ)
or_less s (some p) = some p
or_less s none = strchr less s

module _ (scan_u : List ℕ → Option (ℕ × List ℕ)) where
  -- What follows the number does not matter.
  unfoldable pub packet_pos_parse : List ℕ → Option PacketPos
  packet_pos_parse [] = none
  packet_pos_parse (c ∷ s) =
      if not (is_mode c)
      then none
      else if c == 120 || (c == 97)
      then some (record { mode = c; pos = 0 })
      else (do v ← scan_u s; some (record { mode = c; pos = v.0 }))

  -- From the separator on.
  unfoldable pub upper_parse : PacketPos → List ℕ → Option PacketRange
  upper_parse from [] = none
  upper_parse from (separator ∷ []) =
      some (record { from = from; to = packet_pos_always; upper_cutoff = separator == less })
  upper_parse from (separator ∷ c ∷ s) = do
    to ← packet_pos_parse (c ∷ s)
    some (record { from = from; to = to; upper_cutoff = separator == less })

  unfoldable pub after_from : PacketPos → Option (List ℕ) → Option PacketRange
  after_from from (some p) = upper_parse from p
  after_from from none =
      if from.mode == 97
      then some (record { from = from; to = from; upper_cutoff = false })
      else none

  unfoldable pub packet_range_parse : List ℕ → Option PacketRange
  packet_range_parse s =
      if starts_with dash s || starts_with less s then upper_parse packet_pos_always s else (do
        from ← packet_pos_parse s
        if from.mode == 120
            then some (record { from = from; to = from; upper_cutoff = false })
            else after_from from (or_less s (strchr dash s)))
