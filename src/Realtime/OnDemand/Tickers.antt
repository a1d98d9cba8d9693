-- ===== src/Realtime/OnDemand/Tickers.antt =====
-- internal/realtime/ondemand.go: `startOnDemandTicker`, `stopOnDemandTicker` and
-- `stopAllOnDemandTickers`. A poll is a number; it is live until its context is cancelled.
pub mod Matched
use respondent_community.Common.{
  ℕ, zero, suc, ◌+◌, ◌-◌, ◌≤◌, ◌<◌, ◌≡◌, refl, ap, sym, ◌∙◌, String, Bool, true, false, not, Option,
  none, some, List, [], ◌∷◌, eq_iff, if◌then◌else◌, erase, count, count-erase, arith, nat_eq,
  string_eq, ◌==◌, eqb, Bool-cases, inl, inr,
}
use respondent_community.Common.Dict.{Dict, get, put, remove, get-put, get-remove}
use respondent_community.Common.Int.{ℤ, pos, leb_ℤ}

-- `onDemandTickers`, whose cancel functions are the numbers of their polls, and the live polls.
pub record Tickers : Type 0 where
  pub table : Dict String ℕ
  pub live : List ℕ
  pub next : ℕ

abbrev pub no_tickers : Tickers
no_tickers = record { table = []; live = []; next = 0 }

abbrev pub numbers : Dict String ℕ → List ℕ
numbers [] = []
numbers ((k, n) ∷ m) = n ∷ numbers m

abbrev pub cancel_all : List ℕ → List ℕ → List ℕ
cancel_all [] live = live
cancel_all (n ∷ ns) live = cancel_all ns (erase n live)

abbrev pub stop_found : String → Tickers → Option ℕ → Tickers
stop_found layer t none = t
stop_found layer t (some n) = record t { table = remove layer t.table; live = erase n t.live }

unfoldable pub stop_on_demand_ticker : String → Tickers → Tickers
stop_on_demand_ticker layer t = stop_found layer t (get layer t.table)

-- The interval is that of the layer's type.
unfoldable pub start_on_demand_ticker : String → ℤ → Tickers → Tickers
unfolding stop_on_demand_ticker
start_on_demand_ticker layer interval t =
    let stopped = stop_on_demand_ticker layer t in
    if leb_ℤ interval (pos 0) then stopped else record {
      table = put layer stopped.next stopped.table;
      live = stopped.next ∷ stopped.live;
      next = suc stopped.next;
    }

unfoldable pub stop_all_on_demand_tickers : Tickers → Tickers
stop_all_on_demand_tickers t = record t { table = []; live = cancel_all (numbers t.table) t.live }

pub data Call : Type 0 where
  start : String → ℤ → Call
  stop : String → Call
  stop_all : Call

unfoldable pub call : Call → Tickers → Tickers
unfolding start_on_demand_ticker stop_all_on_demand_tickers
call (start layer interval) t = start_on_demand_ticker layer interval t
call (stop layer) t = stop_on_demand_ticker layer t
call stop_all t = stop_all_on_demand_tickers t

unfoldable pub calls : List Call → Tickers → Tickers
unfolding call
calls [] t = t
calls (c ∷ cs) t = calls cs (call c t)
