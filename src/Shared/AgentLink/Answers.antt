-- ===== src/Shared/AgentLink/Answers.antt =====
-- What the two ends of the agent link answer each other by themselves (shared/src/agentLink.ts).
use nexus_infra.Prelude.{
  ℕ, suc, ◌+◌, ◌*◌, ◌≤◌, String, ◌≡◌, refl, Bool, true, false, Option, none, some, List, [], ◌∷◌,
  ◌++◌, if◌then◌else◌, length, arith, Bool-cases, Option-cases, inl, inr,
}
use nexus_infra.Prelude.Table.{get, set_at}
use nexus_infra.Shared.AgentLink.{
  FrameType, frame_open, frame_data, frame_end, frame_reset, frame_byte, frame_type, encode_frame,
  decode_frame, LinkSession, send, forget, modify, add_stream, accept_stream, remote_data, settle,
  remote_end, reset_frame, on_destroy, destroy, remote_reset, receive_open, receive_frame, receive,
}

unfoldable pub wants_answer : FrameType → Bool
wants_answer frame_open = true
wants_answer frame_data = true
wants_answer frame_end = true
wants_answer frame_reset = false

-- 2 for a message that may be answered, 1 for a RESET or garbage.
unfoldable pub weight : List ℕ → ℕ
weight message = elim (decode_frame message) [
  | none ↦ 1
  | some f ↦ if wants_answer f.kind then 2 else 1
]

unfoldable pub weights : List (List ℕ) → ℕ
weights [] = 0
weights (m ∷ ms) = weight m + weights ms

weights-snoc : (ms : List (List ℕ)) (m : List ℕ) → weights (ms ++ m ∷ []) ≡ weights ms + weight m
unfolding weights
weights-snoc [] m = omega arith
weights-snoc (x ∷ ms) m = omega (arith, weights-snoc ms m)

weights-le : (ms : List (List ℕ)) → weights ms ≤ 2 * length ms
unfolding weights weight
weights-le [] = omega arith
weights-le (m ∷ ms) = ground (arith, weights-le ms)

send-weights : (m : List ℕ) (s : LinkSession) → weights (send m s).sent ≤ weights s.sent + weight m
unfolding send
send-weights m s = elim (Bool-cases s.closed) [
  | inl gone ↦ ground (arith, gone)
  | inr live ↦ ground (arith, live, weights-snoc s.sent m)
]

weight-reset : (id : ℕ) (payload : List ℕ) → weight (encode_frame frame_reset id payload) ≡ 1
unfolding weight encode_frame decode_frame frame_byte frame_type wants_answer
weight-reset id payload = refl

settle-sent : (handle : ℕ) (s : LinkSession) → (settle handle s).sent ≡ s.sent
unfolding settle forget
settle-sent handle s = ground arith

remote_data-sent :
    (handle : ℕ) (payload : List ℕ) (s : LinkSession) → (remote_data handle payload s).sent ≡ s.sent
unfolding remote_data modify
remote_data-sent handle payload s = ground arith

remote_end-sent : (handle : ℕ) (s : LinkSession) → (remote_end handle s).sent ≡ s.sent
unfolding remote_end modify
remote_end-sent handle s = elim (Bool-cases (s.objects handle).remote_ended) [
  | inl ended ↦ ground (arith, ended)
  | inr more ↦ rw (more, remote_end) (settle-sent handle _)
]

module _ (utf8 : String → List ℕ) (text : List ℕ → String) where
  -- A reset from the peer is final before the stream is destroyed, so `_destroy` sends nothing.
  pub remote_reset-sent :
      (handle : ℕ) (reason : String) (s : LinkSession)
      → (remote_reset utf8 text handle reason s).sent ≡ s.sent
  unfolding remote_reset destroy on_destroy modify forget set_at
  remote_reset-sent handle reason s = ground arith

  reset_frame-weight : (id : ℕ) (reason : String) → weight (reset_frame utf8 text id reason) ≡ 1
  unfolding reset_frame
  reset_frame-weight id reason = weight-reset id _

  receive_open-weights :
      (id : ℕ) (stream : Option ℕ) (s : LinkSession)
      → weights (receive_open utf8 text id stream s).sent ≤ weights s.sent + 1
  unfolding receive_open accept_stream add_stream
  receive_open-weights id (some handle) s = omega (
    arith,
    send-weights (reset_frame utf8 text id "stream refused") s,
    reset_frame-weight id "stream refused",
  )
  receive_open-weights id none s = ground (
    arith,
    send-weights (reset_frame utf8 text id "stream refused") s,
    reset_frame-weight id "stream refused",
  )

  receive_frame-weights :
      (kind : FrameType) (id : ℕ) (payload : List ℕ) (stream : Option ℕ) (s : LinkSession)
      → weights (receive_frame utf8 text kind id payload stream s).sent
        ≤ weights s.sent + (if wants_answer kind then 1 else 0)
  unfolding receive_frame wants_answer
  receive_frame-weights frame_open id payload stream s = receive_open-weights id stream s
  receive_frame-weights frame_data id payload none s = omega (
    arith,
    send-weights (reset_frame utf8 text id "unknown stream") s,
    reset_frame-weight id "unknown stream",
  )
  receive_frame-weights frame_data id payload (some handle) s =
      rw (remote_data-sent handle payload s) (omega arith)
  receive_frame-weights frame_end id payload none s = omega (
    arith,
    send-weights (reset_frame utf8 text id "unknown stream") s,
    reset_frame-weight id "unknown stream",
  )
  receive_frame-weights frame_end id payload (some handle) s =
      rw (remote_end-sent handle s) (omega arith)
  receive_frame-weights frame_reset id payload none s = omega arith
  receive_frame-weights frame_reset id payload (some handle) s =
      rw (remote_reset-sent handle _ s) (omega arith)

  receive-weights :
      (m : List ℕ) (s : LinkSession)
      → suc (weights (receive utf8 text m s).sent) ≤ weights s.sent + weight m
  unfolding receive weight
  receive-weights m s = elim (Bool-cases s.closed) [
    | inl gone ↦ ground (arith, gone)
    | inr live ↦ elim (Option-cases (decode_frame m)) [
      | inl bad ↦ ground (arith, live, bad)
      | inr (f, e) ↦ ground (
        arith,
        live,
        e,
        receive_frame-weights f.kind f.stream_id f.payload (get f.stream_id s.streams) s,
      )
    ]
  ]

  -- The two ends of a link: the oldest message that one end sent is delivered to the other. Nobody
  -- opens, writes or closes in between.
  pub data Delivery : LinkSession → LinkSession → LinkSession → LinkSession → Type 0 where
    to_right :
        {l r : LinkSession} (m : List ℕ) (rest : List (List ℕ))
        → l.sent ≡ m ∷ rest
        → Delivery l r (record l { sent = rest }) (receive utf8 text m r)
    to_left :
        {l r : LinkSession} (m : List ℕ) (rest : List (List ℕ))
        → r.sent ≡ m ∷ rest
        → Delivery l r (receive utf8 text m l) (record r { sent = rest })

  -- So many deliveries one after the other.
  pub data Deliveries (l r : LinkSession) : ℕ → LinkSession → LinkSession → Type 0 where
    none_yet : Deliveries l r 0 l r
    one_more :
        {n : ℕ} {a b c d : LinkSession}
        → Deliveries l r n a b
        → Delivery a b c d
        → Deliveries l r (suc n) c d

  Delivery-weights :
      {l r l' r' : LinkSession}
      → Delivery l r l' r'
      → suc (weights l'.sent + weights r'.sent) ≤ weights l.sent + weights r.sent
  unfolding weights
  Delivery-weights {l} {r} (to_right m rest e) = rw e (omega (arith, receive-weights m r))
  Delivery-weights {l} {r} (to_left m rest e) = rw e (omega (arith, receive-weights m l))

  Deliveries-weights :
      {l r l' r' : LinkSession} {n : ℕ}
      → Deliveries l r n l' r'
      → n + (weights l'.sent + weights r'.sent) ≤ weights l.sent + weights r.sent
  Deliveries-weights none_yet = omega arith
  Deliveries-weights (one_more ds d) = omega (arith, Deliveries-weights ds, Delivery-weights d)

  -- The ends of a link do not keep each other busy: with nobody opening, writing or closing, the
  -- messages in flight, whatever they are, and all the answers to them are delivered in at most twice
  -- as many deliveries as messages were in flight at first. Resets that cross do not bounce.
  pub Deliveries-le :
      {l r l' r' : LinkSession} (n : ℕ)
      → Deliveries l r n l' r'
      → n ≤ 2 * (length l.sent + length r.sent)
  Deliveries-le {l} {r} n ds =
      omega (arith, Deliveries-weights ds, weights-le l.sent, weights-le r.sent)
