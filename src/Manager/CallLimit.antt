-- ===== src/Manager/CallLimit.antt =====
-- manager/backend/app/utils/decorators.py, `rate_limit`. The dict of the decorator is a list of its
-- entries; times are whole units of the clock, which does not run backwards between calls.
pub mod Histories
pub mod Window
use squawk.Prelude.{
  ℕ, ◌+◌, Bool, true, false, Option, none, some, List, [], ◌∷◌, ◌++◌, length, Text, text_eq, ltb,
  leb, if◌then◌else◌,
}

-- `[timestamp for timestamp in history if now - timestamp < period]`
unfoldable pub recent : ℕ → ℕ → List ℕ → List ℕ
recent period now [] = []
recent period now (t ∷ ts) =
    let rest = recent period now ts in if ltb now (t + period) then t ∷ rest else rest

-- `call_history[client_ip]`, empty for a client that is new
unfoldable pub history_of : Text → List (Text × List ℕ) → List ℕ
history_of ip [] = []
history_of ip ((key, ts) ∷ hs) = let rest = history_of ip hs in if text_eq key ip then ts else rest

unfoldable pub set_history : Text → List ℕ → List (Text × List ℕ) → List (Text × List ℕ)
set_history ip ts [] = (ip, ts) ∷ []
set_history ip ts ((key, old) ∷ hs) =
    let rest = set_history ip ts hs in if text_eq key ip then (key, ts) ∷ hs else (key, old) ∷ rest

-- One call: whether the function is called, and the histories after it.
unfoldable pub limited_call : ℕ → ℕ → ℕ → Text → List (Text × List ℕ) → Bool × List (Text × List ℕ)
limited_call calls period now ip hs =
    let kept = recent period now (history_of ip hs) in
    if leb calls (length kept)
    then (false, set_history ip kept hs)
    else (true, set_history ip (kept ++ (now ∷ [])) hs)
