-- ===== src/Ingest/TradeBuffer.antt =====
-- backend/src/ingest/trade-buffer.ts: the trades that wait for the next batch.
use ariai_exam.Prelude.{
  ℕ, ◌-◌, ◌*◌, Bool, List, [], ◌∷◌, ◌++◌, Option, none, some, Result, ok, err, ltb, leb,
  if◌then◌else◌, length, drop,
}

pub record TradeBuffer {ℓ} (T : Type ℓ) : Type ℓ where
  pub rows : List T
  pub max_rows : ℕ
  pub hard_cap : ℕ

pub record RestoreResult : Type 0 where
  pub buffered : ℕ
  pub dropped : ℕ

pub data BufferError : Type 0 where
  bad_max_rows : BufferError
  cap_below_max_rows : ℕ → ℕ → BufferError

abbrev pub default_hard_cap_multiplier : ℕ
default_hard_cap_multiplier = 100

-- `options.hardCap ?? options.maxRows * …`
abbrev pub cap_or_default : ℕ → Option ℕ → ℕ
cap_or_default max_rows none = max_rows * default_hard_cap_multiplier
cap_or_default max_rows (some cap) = cap

module _ {ℓ} {T : Type ℓ} where
  unfoldable pub new_buffer : ℕ → Option ℕ → Result BufferError (TradeBuffer T)
  new_buffer max cap =
      if ltb max 1
      then err bad_max_rows
      else if ltb (cap_or_default max cap) max
      then err (cap_below_max_rows (cap_or_default max cap) max)
      else ok (record { rows = []; max_rows = max; hard_cap = cap_or_default max cap })

  abbrev pub add : T → TradeBuffer T → Bool × TradeBuffer T
  add row b =
      let b' = record b { rows = b.rows ++ (row ∷ []) } in (leb b.max_rows (length b'.rows), b')

  abbrev pub size : TradeBuffer T → ℕ
  size b = length b.rows

  abbrev pub drain : TradeBuffer T → List T × TradeBuffer T
  drain b = (b.rows, record b { rows = [] })

  abbrev pub excess : List T → TradeBuffer T → ℕ
  excess combined b = length combined - b.hard_cap

  abbrev pub restore : List T → TradeBuffer T → RestoreResult × TradeBuffer T
  restore failed b =
      let combined = failed ++ b.rows in
      let lost = excess combined b in
      let kept = if ltb 0 lost then drop lost combined else combined in
      (record { buffered = length kept; dropped = lost }, record b { rows = kept })
