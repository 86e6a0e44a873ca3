-- ===== src/Shared/AgentLink/Delivery.antt =====
-- Each stream of an agent link reads what its peer wrote (shared/src/agentLink.ts).
use mathlib.Core.List.{append-nil, append_assoc}
use nexus_infra.Prelude.{
  ℕ, ◌<◌, String, ◌≡◌, refl, sym, ◌∙◌, false, some, List, [], ◌∷◌, ◌++◌, if◌then◌else◌, ◌==◌, arith,
  All, Bool-cases, Option-cases, inl, inr,
}
use nexus_infra.Prelude.Table.{get}
use nexus_infra.Shared.AgentLink.{
  frame_data, decode_frame, LinkStream, LinkSession, send, receive_frame, receive, encode_frame,
  write,
}
use nexus_infra.Shared.AgentLink.Effects.{IsValid}
use nexus_infra.Shared.AgentLink.Reading.{
  Own, goes_on, stops, receive-Own, receive-garbage, receive-frame,
}
use nexus_infra.Shared.AgentLink.Ended.{receive-Gone}
use nexus_infra.Shared.AgentLink.Others.{receive_other-Live}
use nexus_infra.Shared.AgentLink.Codec.{decode_frame-encode_frame}
use nexus_infra.Shared.AgentLink.Demux.{reads_here, reads, Gone, Live, pushed_at, receive-IsValid}

module _ (utf8 : String → List ℕ) (text : List ℕ → String) where
  -- The messages of the peer one after the other.
  unfoldable pub receive_all : List (List ℕ) → LinkSession → LinkSession
  receive_all [] s = s
  receive_all (m ∷ ms) s = receive_all ms (receive utf8 text m s)

  receive_all-Gone :
      (ms : List (List ℕ)) (h : ℕ) (s : LinkSession)
      → Gone s h
      → pushed_at (receive_all ms s) h ≡ pushed_at s h
  unfolding receive_all
  receive_all-Gone [] h s g = refl
  receive_all-Gone (m ∷ ms) h s g =
      let (g', same) = receive-Gone utf8 text m h s g in
      receive_all-Gone ms h (receive utf8 text m s) g' ∙ same

  -- What is pushed to the reader of an open stream is what its own frames carry, in their order, up
  -- to its END or RESET: frames of other streams, further OPENs and garbage in between change nothing
  -- of it, and neither does anything after the END or RESET.
  pub receive_all-reads :
      (ms : List (List ℕ)) (id h : ℕ) (s : LinkSession)
      → IsValid s
      → Live s id h
      → pushed_at (receive_all ms s) h ≡ pushed_at s h ++ reads id ms
  unfolding receive_all reads
  receive_all-reads [] id h s v l = sym (append-nil (pushed_at s h))
  receive_all-reads (m ∷ ms) id h s v l =
      let v' = receive-IsValid utf8 text m s v in
      elim (Option-cases (decode_frame m)) [
        | inl bad ↦
            rw (bad, receive-garbage utf8 text m s bad, reads) (receive_all-reads ms id h s v l)
        | inr (f, e) ↦ elim (Bool-cases (f.stream_id == id)) [
          | inr other ↦
              let got = receive-frame utf8 text m s f l.up e in
              let (l', same) =
                receive_other-Live utf8 text f.kind f.stream_id id h f.payload
                  (get f.stream_id s.streams) s refl v l other in
              let next : Live (receive utf8 text m s) id h = rw got l' in
              let kept : pushed_at (receive utf8 text m s) h ≡ pushed_at s h = rw got same in
              rw (e, other, ← kept, reads) (receive_all-reads ms id h _ v' next)
          | inl own ↦
              let now : f.stream_id ≡ id = ground (arith, own) in
              let got : receive utf8 text m s
                  ≡ receive_frame utf8 text f.kind id f.payload (some h) s =
                ground (arith, now, l.found, receive-frame utf8 text m s f l.up e) in
              let mine : Own utf8 text s (receive utf8 text m s) id h f.kind f.payload =
                rw got (receive-Own utf8 text f.kind id h f.payload s v l) in
              elim mine [
                | goes_on l' step ↦
                    rw (e, own, reads)
                      (receive_all-reads ms id h (receive utf8 text m s) v' l' ∙ step (reads id ms))
                | stops g step ↦
                    rw (e, own, reads)
                      (receive_all-Gone ms h (receive utf8 text m s) g ∙ step (reads id ms))
              ]
        ]
      ]

  -- The chunks that are written to streams, by their handles, one after the other.
  unfoldable pub write_all : List (ℕ × List ℕ) → LinkSession → LinkSession
  write_all [] l = l
  write_all ((handle, chunk) ∷ ws) l = write_all ws (write utf8 text handle chunk l).0

-- The chunks among them that are written to the stream `id`.
unfoldable pub written : (ℕ → LinkStream) → ℕ → List (ℕ × List ℕ) → List (List ℕ)
written objects id [] = []
written objects id ((handle, chunk) ∷ ws) =
    let rest = written objects id ws in
    if (objects handle).stream_id == id then chunk ∷ rest else rest

-- A stream that can be written to, with an id of 32 bits.
abbrev pub Writable : (ℕ → LinkStream) → ℕ × List ℕ → Type 0
Writable objects (handle, chunk) =
    ((objects handle).was_reset ≡ false) × ((objects handle).stream_id < 4294967296)

frames : (ℕ → LinkStream) → List (ℕ × List ℕ) → List (List ℕ)
frames objects [] = []
frames objects ((handle, chunk) ∷ ws) =
    encode_frame frame_data (objects handle).stream_id chunk ∷ frames objects ws

reads-frames :
    (objects : ℕ → LinkStream) (id : ℕ) (ws : List (ℕ × List ℕ))
    → All (Writable objects) ws
    → reads id (frames objects ws) ≡ written objects id ws
unfolding reads frames written reads_here
reads-frames objects id [] w = refl
reads-frames objects id ((handle, chunk) ∷ ws) ((live, small), w) =
    rw (decode_frame-encode_frame frame_data (objects handle).stream_id chunk small, reads)
      (ground (arith, reads-frames objects id ws w))

module _ (utf8 : String → List ℕ) (text : List ℕ → String) where
  write_all-sent :
      (ws : List (ℕ × List ℕ)) (l : LinkSession)
      → l.closed ≡ false
      → All (Writable l.objects) ws
      → (write_all utf8 text ws l).sent ≡ l.sent ++ frames l.objects ws
  unfolding write_all frames
  write_all-sent [] l up w = sym (append-nil l.sent)
  write_all-sent ((handle, chunk) ∷ ws) l up ((live, small), w) =
      let frame = encode_frame frame_data (l.objects handle).stream_id chunk in
      let same : (write utf8 text handle chunk l).0 ≡ record l { sent = l.sent ++ frame ∷ [] } =
        unfold write send in ground (arith, up, live) in
      rw (same, write_all)
        (write_all-sent ws (record l { sent = l.sent ++ frame ∷ [] }) up w
          ∙ append_assoc l.sent (frame ∷ []) (frames l.objects ws))

  -- A stream that is open at the receiving end reads exactly the chunks that were written to its id
  -- at the sending end, in the order of the writes, however the writes to other streams of the same
  -- link are interleaved with them; for an idle link, and streams that can be written to.
  pub write_all-receive_all :
      (ws : List (ℕ × List ℕ)) (l r : LinkSession) (id h : ℕ)
      → l.closed ≡ false
      → l.sent ≡ []
      → All (Writable l.objects) ws
      → IsValid r
      → Live r id h
      → pushed_at (receive_all utf8 text (write_all utf8 text ws l).sent r) h
        ≡ pushed_at r h ++ written l.objects id ws
  write_all-receive_all ws l r id h up idle w v live =
      rw (write_all-sent ws l up w, idle, ← reads-frames l.objects id ws w)
        (receive_all-reads utf8 text (frames l.objects ws) id h r v live)
