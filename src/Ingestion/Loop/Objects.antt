-- ===== src/Ingestion/Loop/Objects.antt =====
-- The live call objects of `HandleRpcs`: counting them, over the changes that one round makes.
use bb_monitor.Base.{
  ℕ, suc, ◌+◌, ◌≤◌, ◌<◌, ◌≡◌, refl, List, [], ◌∷◌, Option, none, some, nat_key, arith,
  if◌then◌else◌,
}
use bb_monitor.Base.Maps.{lookup, assign, erase}
use bb_monitor.Ingestion.Call.{CallData, CallKind, Effect, new_call}
use bb_monitor.Ingestion.Loop.{Server, kept_calls, settle, spawn_all}

-- The tags fall along the list, and are below the next one.
abbrev pub Below : ℕ → List (ℕ × CallData) → Type 0
Below n [] = Unit {0}
Below n ((t, c) ∷ m) = (t < n) × Below t m

abbrev pub total : (CallData → ℕ) → List (ℕ × CallData) → ℕ
total w [] = 0
total w ((t, c) ∷ m) = w c + total w m

abbrev pub weight : (CallData → ℕ) → Option CallData → ℕ
weight w none = 0
weight w (some c) = w c

Below-mono : {k n : ℕ} (m : List (ℕ × CallData)) → k ≤ n → Below k m → Below n m
Below-mono [] h b = tt
Below-mono ((t, c) ∷ m) h b = (omega arith, b.1)

assign-Below :
    (n tag : ℕ) (c d : CallData) (m : List (ℕ × CallData))
    → lookup tag m ≡ some c
    → Below n m
    → Below n (assign tag d m)
unfolding lookup assign
assign-Below n tag c d [] e b = cc
assign-Below n tag c d ((t, x) ∷ m) e b = ground (arith, assign-Below t tag c d m)

erase-Below : (n tag : ℕ) (m : List (ℕ × CallData)) → Below n m → Below n (erase tag m)
unfolding erase
erase-Below n tag [] b = tt
erase-Below n tag ((t, x) ∷ m) b =
    ground (arith, erase-Below t tag m b.1, Below-mono {k = t} {n = n} (erase tag m))

erase_above : (n tag : ℕ) (m : List (ℕ × CallData)) → n ≤ tag → Below n m → erase tag m ≡ m
unfolding erase
erase_above n tag [] h b = refl
erase_above n tag ((t, x) ∷ m) h b = ground (arith, erase_above t tag m)

module _ (w : CallData → ℕ) where
  total-assign :
      (tag : ℕ) (c d : CallData) (m : List (ℕ × CallData))
      → lookup tag m ≡ some c
      → total w (assign tag d m) + w c ≡ total w m + w d
  unfolding lookup assign
  total-assign tag c d [] e = cc
  total-assign tag c d ((t, x) ∷ m) e = ground (arith, total-assign tag c d m)

  pub le-total :
      (tag : ℕ) (c : CallData) (m : List (ℕ × CallData)) → lookup tag m ≡ some c → w c ≤ total w m
  unfolding lookup
  le-total tag c [] e = cc
  le-total tag c ((t, x) ∷ m) e = ground (arith, le-total tag c m)

  total-erase :
      (n tag : ℕ) (c : CallData) (m : List (ℕ × CallData))
      → Below n m
      → lookup tag m ≡ some c
      → total w (erase tag m) + w c ≡ total w m
  unfolding lookup erase
  total-erase n tag c [] b e = cc
  total-erase n tag c ((t, x) ∷ m) b e =
      ground (arith, total-erase t tag c m b.1, erase_above t tag m)

  total-kept_calls :
      (n tag : ℕ) (c : CallData) (o : Option CallData) (m : List (ℕ × CallData))
      → Below n m
      → lookup tag m ≡ some c
      → total w (kept_calls tag o m) + w c ≡ total w m + weight w o
  total-kept_calls n tag c none m b e = omega (arith, total-erase n tag c m b e)
  total-kept_calls n tag c (some d) m b e = total-assign tag c d m e

  -- One round replaces the weight of the object that it drives by that of what becomes of it, and
  -- adds that of the object that it spawns.
  pub total-settle :
      {D : Type 0} (tag : ℕ) (c : CallData) (e : Effect D) (s : Server D)
      → Below s.next_tag s.calls
      → lookup tag s.calls ≡ some c
      → total w (settle tag c.kind e s).calls + w c
        ≡ total w s.calls + weight w e.call + (if e.spawned then w (new_call c.kind) else 0)
  total-settle tag c e s b f = ground (arith, total-kept_calls s.next_tag tag c e.call s.calls b f)

kept_calls-Below :
    (n tag : ℕ) (c : CallData) (o : Option CallData) (m : List (ℕ × CallData))
    → lookup tag m ≡ some c
    → Below n m
    → Below n (kept_calls tag o m)
kept_calls-Below n tag c none m e b = erase-Below n tag m b
kept_calls-Below n tag c (some d) m e b = assign-Below n tag c d m e b

pub settle-Below :
    {D : Type 0} (tag : ℕ) (c : CallData) (e : Effect D) (s : Server D)
    → lookup tag s.calls ≡ some c
    → Below s.next_tag s.calls
    → Below (settle tag c.kind e s).next_tag (settle tag c.kind e s).calls
settle-Below tag c e s f b = ground (arith, kept_calls-Below s.next_tag tag c e.call s.calls f b)

pub spawn_all-Below :
    (kinds : List CallKind) (n : ℕ) (calls : List (ℕ × CallData))
    → Below n calls
    → Below (spawn_all kinds (n, calls)).0 (spawn_all kinds (n, calls)).1
spawn_all-Below [] n calls b = b
spawn_all-Below (k ∷ ks) n calls b = spawn_all-Below ks (suc n) _ (omega arith, b)
