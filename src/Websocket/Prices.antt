-- ===== src/Websocket/Prices.antt =====
-- The socket of prices (backend/app/routers/ws.py, lines 63 to 161): the rounds of its loop, one after
-- another. A round begins with the frame that came, if one did, and the two readings of the clock. The
-- set of pairs is kept sorted. The amounts in the messages are left out; times are microseconds; and
-- `strip` is Python's.
use Prim.Native.Nat.{Ordering}
use Prim.Native.String.{compare as compare_text}
use text.Mathlib.Text.{◌==◌ as str_eq}
use crypto_exchange_pro.Prelude.{
  ℕ, String, Bool, true, false, Option, none, some, List, [], ◌∷◌, ◌++◌, ◌+◌, ◌-◌, ◌%◌, ◌<◌, ◌≡◌,
  refl, ◌∙◌, ltb, ◌==◌, ◌||◌, if◌then◌else◌, All, map, select, not, arith, Bool-cases, ◌⊎◌, inl,
  inr,
}

pub data Frame : Type 0 where
  silent malformed disconnect pong other : Frame
  subscribe unsubscribe : List String → Frame

pub data Sent : Type 0 where
  hello subscribed unsubscribed : List String → Sent
  price book trades : String → Sent
  ping close_policy close_going_away : Sent

pub record Socket : Type 0 where
  pub pairs : List String
  pub last_seen : ℕ
  pub tick : ℕ

pub record Round : Type 0 where
  pub frame : Frame
  pub received : ℕ
  pub now : ℕ

abbrev pub has : String → List String → Bool
has p [] = false
has p (q ∷ qs) = str_eq p q || has p qs

abbrev pub comes_first : Ordering → Bool
comes_first Ordering.lt = true
comes_first Ordering.eq = false
comes_first Ordering.gt = false

-- `subscribed.add`, on the sorted set.
unfoldable pub add_symbol : String → List String → List String
add_symbol p [] = p ∷ []
add_symbol p (q ∷ qs) =
    let rest = add_symbol p qs in
    if str_eq p q then q ∷ qs else if comes_first (compare_text p q) then p ∷ q ∷ qs else q ∷ rest

abbrev pub discard : String → List String → List String
discard p = select (λ q. not (str_eq p q))

module _ (strip : String → String) where
  unfoldable pub add_all : List String → List String → List String
  add_all [] pairs = pairs
  add_all (p ∷ ps) pairs =
      let symbol = strip p in
      add_all ps (if str_eq symbol "" then pairs else add_symbol symbol pairs)

  unfoldable pub discard_all : List String → List String → List String
  discard_all [] pairs = pairs
  discard_all (p ∷ ps) pairs = discard_all ps (discard (strip p) pairs)

  -- The query parameter, split at its commas; without a pair, BTC/USDT.
  abbrev pub or_default : List String → List String
  or_default [] = "BTC/USDT" ∷ []
  or_default (p ∷ ps) = p ∷ ps

  unfoldable pub subscribed_at_first : List String → List String
  subscribed_at_first asked = or_default (add_all asked [])

  abbrev pub head_snapshot : List String → List Sent
  head_snapshot [] = []
  head_snapshot (p ∷ ps) = book p ∷ trades p ∷ []

  -- What is sent before the loop, to a user who is let in or not.
  unfoldable pub open_socket : Bool → List String → ℕ → List Sent × Option Socket
  open_socket false asked now = (close_policy ∷ [], none)
  open_socket true asked now =
      let pairs = subscribed_at_first asked in
      (
        hello pairs ∷ (map price pairs ++ head_snapshot pairs),
        some (record { pairs = pairs; last_seen = now; tick = 0 }),
      )

  -- The answer to a frame.
  abbrev pub on_frame : Frame → ℕ → Socket → List Sent × Socket
  on_frame pong received s = ([], record s { last_seen = received })
  on_frame (subscribe ps) received s =
      let pairs = add_all ps s.pairs in
      (
        subscribed pairs ∷ map price (select (λ p. not (has p s.pairs)) pairs),
        record s { pairs = pairs },
      )
  on_frame (unsubscribe ps) received s =
      let pairs = discard_all ps s.pairs in (unsubscribed pairs ∷ [], record s { pairs = pairs })
  on_frame silent received s = ([], s)
  on_frame malformed received s = ([], s)
  on_frame other received s = ([], s)
  on_frame disconnect received s = ([], s)

  abbrev pub heartbeat : Socket → List Sent
  heartbeat s = if (s.tick % 15) == 0 then ping ∷ [] else []

  -- HEARTBEAT_TIMEOUT_SECONDS.
  abbrev pub is_dead : ℕ → Socket → Bool
  is_dead now s = ltb 45000000 (now - s.last_seen)

  abbrev pub snapshot_every : Socket → List Sent
  snapshot_every s = if (s.tick % 2) == 0 then head_snapshot s.pairs else []

  abbrev pub after_frame : List Sent × Socket → ℕ → List Sent × Option Socket
  after_frame (sent, s) now =
      let s' = record s { tick = s.tick + 1 } in
      if is_dead now s
      then (sent ++ (heartbeat s ++ close_going_away ∷ []), none)
      else (sent ++ (heartbeat s ++ (map price s.pairs ++ snapshot_every s')), some s')

  abbrev pub is_disconnect : Frame → Bool
  is_disconnect disconnect = true
  is_disconnect _ = false

  unfoldable pub price_round : Round → Socket → List Sent × Option Socket
  price_round r s =
      if is_disconnect r.frame
      then ([], none)
      else after_frame (on_frame r.frame r.received s) r.now

  abbrev pub then_rounds :
      (Socket → List Sent × Option Socket) → List Sent × Option Socket → List Sent × Option Socket
  then_rounds rest (sent, none) = (sent, none)
  then_rounds rest (sent, some s) = let (later, s') = rest s in (sent ++ later, s')

  unfoldable pub price_rounds : List Round → Socket → List Sent × Option Socket
  price_rounds [] s = ([], some s)
  price_rounds (r ∷ rs) s = then_rounds (price_rounds rs) (price_round r s)

  abbrev pub is_pong : Frame → Bool
  is_pong pong = true
  is_pong _ = false

  on_frame-last_seen :
      (f : Frame) (received : ℕ) (s : Socket)
      → is_pong f ≡ false
      → (on_frame f received s).1.last_seen ≡ s.last_seen
  on_frame-last_seen pong received s h = absurd (cc)
  on_frame-last_seen (subscribe ps) received s h = refl
  on_frame-last_seen (unsubscribe ps) received s h = refl
  on_frame-last_seen silent received s h = refl
  on_frame-last_seen malformed received s h = refl
  on_frame-last_seen other received s h = refl
  on_frame-last_seen disconnect received s h = refl

  -- Without a pong, a round closes the socket or leaves the time of the last one.
  price_round-last_seen :
      (r : Round) (s : Socket)
      → is_pong r.frame ≡ false
      → ((price_round r s).1 ≡ none)
        ⊎ ((s' : Socket) × ((price_round r s).1 ≡ some s') × (s'.last_seen ≡ s.last_seen))
  unfolding price_round
  price_round-last_seen r s h =
      let kept = on_frame-last_seen r.frame r.received s h in
      elim (Bool-cases (is_disconnect r.frame)) [
        | inl t ↦ inl (rw t refl)
        | inr f ↦ elim (Bool-cases (is_dead r.now (on_frame r.frame r.received s).1)) [
          | inl d ↦ inl (rw (f, d) refl)
          | inr d ↦
              let s' = (on_frame r.frame r.received s).1 in
              inr (record s' { tick = s'.tick + 1 }, rw (f, d) refl, kept)
        ]
      ]

  then_rounds-closed :
      (rest : Socket → List Sent × Option Socket) (x : List Sent × Option Socket)
      → x.1 ≡ none
      → (then_rounds rest x).1 ≡ none
  then_rounds-closed rest (sent, none) e = refl
  then_rounds-closed rest (sent, some s) e = absurd (cc)

  then_rounds-open :
      (rest : Socket → List Sent × Option Socket) (x : List Sent × Option Socket) (s : Socket)
      → x.1 ≡ some s
      → (then_rounds rest x).1 ≡ (rest s).1
  then_rounds-open rest (sent, none) s e = absurd (cc)
  then_rounds-open rest (sent, some s') s e = let same : s' ≡ s = ground arith in rw same refl

  -- A socket that hears no pong is closed no later than in the first round that comes more than 45
  -- seconds after the last pong, whatever other frames it hears meanwhile.
  pub price_rounds-closes :
      (rs : List Round) (late : Round) (s : Socket)
      → All (λ (r : Round). is_pong r.frame ≡ false) (rs ++ late ∷ [])
      → s.last_seen + 45000000 < late.now
      → (price_rounds (rs ++ late ∷ []) s).1 ≡ none
  unfolding price_rounds price_round
  price_rounds-closes [] late s all h = elim (Bool-cases (is_disconnect late.frame)) [
    | inl t ↦ rw t refl
    | inr f ↦
        let kept = on_frame-last_seen late.frame late.received s all.0 in
        let dead : is_dead late.now (on_frame late.frame late.received s).1 ≡ true =
          ground (arith, kept, h) in
        rw (f, dead) refl
  ]
  price_rounds-closes (r ∷ rs) late s all h = elim (price_round-last_seen r s all.0) [
    | inl e ↦ then_rounds-closed (price_rounds (rs ++ late ∷ [])) (price_round r s) e
    | inr (s', e, kept) ↦
        then_rounds-open (price_rounds (rs ++ late ∷ [])) (price_round r s) s' e
        ∙ price_rounds-closes rs late s' all.1 (omega (arith, kept, h))
  ]
