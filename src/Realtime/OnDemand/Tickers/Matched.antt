-- ===== src/Realtime/OnDemand/Tickers/Matched.antt =====
-- Which polls are live.
use respondent_community.Common.{
  ℕ, suc, ◌+◌, ◌-◌, ◌≤◌, ◌≡◌, refl, ap, sym, ◌∙◌, String, Option, none, some, List, [], ◌∷◌, eq_iff,
  if◌then◌else◌, erase, count, count-erase, arith, nat_eq, string_eq, ◌==◌, eqb, Bool-cases, inl,
  inr,
}
use respondent_community.Common.Dict.{Dict, get, put, remove, get-put, get-remove}
use respondent_community.Common.Int.{pos, leb_ℤ}
use respondent_community.Realtime.OnDemand.Tickers.{
  Tickers, no_tickers, numbers, cancel_all, stop_found, stop_on_demand_ticker,
  start_on_demand_ticker, stop_all_on_demand_tickers, Call, start, stop, stop_all, call, calls,
}

-- The layers are listed once.
abbrev pub IsMap : Dict String ℕ → Type 0
IsMap [] = Unit
IsMap ((k, n) ∷ m) = (get k m ≡ none) × IsMap m

-- Each live poll is the ticker of one layer, and each ticker a live poll.
pub record Matched (t : Tickers) : Type 0 where
  pub map : IsMap t.table
  pub paired : (n : ℕ) → count n t.live ≡ count n (numbers t.table)
  pub fresh : (n : ℕ) → t.next ≤ n → count n t.live ≡ 0
  pub once : (n : ℕ) → count n t.live ≤ 1

get-remove_absent : (k j : String) (m : Dict String ℕ) → get j m ≡ none → get j (remove k m) ≡ none
get-remove_absent k j m h = ground (arith, get-remove k j m, h)

remove-IsMap : (k : String) (m : Dict String ℕ) → IsMap m → IsMap (remove k m)
unfolding remove
remove-IsMap k [] h = tt
remove-IsMap k ((j, n) ∷ m) (new, h) = elim (Bool-cases (j == k)) [
  | inl same ↦ rw same (remove-IsMap k m h)
  | inr differ ↦ rw differ (get-remove_absent k j m new, remove-IsMap k m h)
]

put-IsMap : (k : String) (n : ℕ) (m : Dict String ℕ) → IsMap m → IsMap (put k n m)
unfolding put
put-IsMap k n [] h = (unfold get in refl, tt)
put-IsMap k n ((j, w) ∷ m) (new, h) = elim (Bool-cases (j == k)) [
  | inl same ↦ rw same (ap (λ i. get i m) (sym ((eq_iff j k).0 same)) ∙ new, h)
  | inr differ ↦
      rw differ
        (ground (arith, get-put k j n m, eq_iff k j, eq_iff j k, differ, new), put-IsMap k n m h)
]

remove_absent : (k : String) (m : Dict String ℕ) → get k m ≡ none → remove k m ≡ m
unfolding get remove
remove_absent k [] h = refl
remove_absent k ((j, n) ∷ m) h = ground (arith, remove_absent k m, h)

-- What the removal of a layer, or a new one, does to the numbers.
count-remove :
    (k : String) (v x : ℕ) (m : Dict String ℕ)
    → IsMap m
    → get k m ≡ some v
    → count x (numbers (remove k m)) + (if eqb v x then 1 else 0) ≡ count x (numbers m)
unfolding get remove
count-remove k v x [] h g = cc
count-remove k v x ((j, n) ∷ m) (new, h) g = elim (Bool-cases (j == k)) [
  | inl same ↦
      let absent : get k m ≡ none = ap (λ i. get i m) (sym ((eq_iff j k).0 same)) ∙ new in
      ground (arith, remove_absent k m absent, same, g)
  | inr differ ↦ ground (arith, count-remove k v x m h, g, differ)
]

count-put :
    (k : String) (v x : ℕ) (m : Dict String ℕ)
    → get k m ≡ none
    → count x (numbers (put k v m)) ≡ (if eqb v x then 1 else 0) + count x (numbers m)
unfolding get put
count-put k v x [] g = ground arith
count-put k v x ((j, n) ∷ m) g = ground (arith, count-put k v x m, g)

count-cancel_all :
    (x : ℕ) (ns live : List ℕ) → count x (cancel_all ns live) ≡ count x live - count x ns
count-cancel_all x [] live = omega arith
count-cancel_all x (n ∷ ns) live =
    ground (arith, count-cancel_all x ns (erase n live), count-erase x n live)

found-Matched :
    (layer : String) (t : Tickers) (o : Option ℕ)
    → get layer t.table ≡ o
    → Matched t
    → Matched (stop_found layer t o)
found-Matched layer t none e m = m
found-Matched layer t (some n) e m = record {
  map = remove-IsMap layer t.table m.map;
  paired = λ x.
      ground (arith, count-remove layer n x t.table m.map e, count-erase x n t.live, m.paired x);
  fresh = λ x h. ground (arith, count-erase x n t.live, m.fresh x h);
  once = λ x. ground (arith, count-erase x n t.live, m.once x);
}

found_stopped :
    (layer : String) (t : Tickers) (o : Option ℕ)
    → get layer t.table ≡ o
    → get layer (stop_found layer t o).table ≡ none
found_stopped layer t none e = e
found_stopped layer t (some n) e =
    ground (arith, get-remove layer layer t.table, eq_iff layer layer)

started-Matched :
    (layer : String) (t : Tickers)
    → get layer t.table ≡ none
    → Matched t
    → Matched
        (record { table = put layer t.next t.table; live = t.next ∷ t.live; next = suc t.next })
started-Matched layer t e m = record {
  map = put-IsMap layer t.next t.table m.map;
  paired = λ x. ground (arith, count-put layer t.next x t.table e, m.paired x);
  fresh = λ x h. ground (arith, m.fresh x (omega (arith, h)));
  once = λ x. ground (arith, m.once x, m.fresh t.next (omega arith));
}

call-Matched : (c : Call) (t : Tickers) → Matched t → Matched (call c t)
unfolding call stop_on_demand_ticker start_on_demand_ticker stop_all_on_demand_tickers
call-Matched (stop layer) t m = found-Matched layer t (get layer t.table) refl m
call-Matched (start layer interval) t m =
    let stopped = found-Matched layer t (get layer t.table) refl m in
    elim (Bool-cases (leb_ℤ interval (pos 0))) [
      | inl off ↦ rw off stopped
      | inr on ↦
          rw on (started-Matched layer _ (found_stopped layer t (get layer t.table) refl) stopped)
    ]
call-Matched stop_all t m = record {
  map = tt;
  paired = λ x. omega (arith, count-cancel_all x (numbers t.table) t.live, m.paired x);
  fresh = λ x h. omega (arith, count-cancel_all x (numbers t.table) t.live, m.paired x);
  once = λ x. omega (arith, count-cancel_all x (numbers t.table) t.live, m.paired x);
}

calls_keep : (cs : List Call) (t : Tickers) → Matched t → Matched (calls cs t)
unfolding calls
calls_keep [] t m = m
calls_keep (c ∷ cs) t m = calls_keep cs (call c t) (call-Matched c t m)

-- Whatever polls are started and stopped, each live poll is the ticker of exactly one layer and each
-- ticker a live poll, so that no poll goes on that cannot be stopped.
pub calls-Matched : (cs : List Call) → Matched (calls cs no_tickers)
calls-Matched cs =
    calls_keep cs no_tickers
      (record { map = tt; paired = λ n. refl; fresh = λ n h. refl; once = λ n. omega arith })
