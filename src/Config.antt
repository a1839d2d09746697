-- ===== src/Config.antt =====
-- backend/src/config/configuration.ts: the constants and enumerations that the services share.
use ariai_exam.Prelude.{ℕ, Bool, true, false, Text, codes}

-- `SUPPORTED_SYMBOLS`
pub data Symbol : Type 0 where
  btcusdt ethusdt : Symbol

-- `SUPPORTED_INTERVALS`
pub data Interval : Type 0 where
  m1 m5 m15 h1 : Interval

-- `interval === BASE_INTERVAL`
abbrev pub is_base_interval : Interval → Bool
is_base_interval m1 = true
is_base_interval m5 = false
is_base_interval m15 = false
is_base_interval h1 = false

abbrev pub same_symbol : Symbol → Symbol → Bool
same_symbol btcusdt btcusdt = true
same_symbol ethusdt ethusdt = true
same_symbol _ _ = false

abbrev pub base_interval_ms : ℕ
base_interval_ms = 60_000

-- The texts of `SUPPORTED_SYMBOLS` and of `SUPPORTED_INTERVALS`.
abbrev pub symbol_name : Symbol → Text
symbol_name btcusdt = codes "BTCUSDT"
symbol_name ethusdt = codes "ETHUSDT"

abbrev pub interval_name : Interval → Text
interval_name m1 = codes "1m"
interval_name m5 = codes "5m"
interval_name m15 = codes "15m"
interval_name h1 = codes "1h"
