-- ===== src/Bridge/Written.antt =====
-- What the loops of bridgeWS (src/transport.go) have written when they stop, whichever writes fail.
use tg_ws_proxy_go.Base.{
  append_assoc, ℕ, suc, ◌≡◌, refl, sym, subst, ap, ◌∙◌, inl, inr, Bool-cases, List, [], ◌∷◌, ◌++◌,
  Bool, true, false, Bytes, length, length_zero, ==_iff, ◌==◌, if◌then◌else◌, arith,
}
use tg_ws_proxy_go.Splitter.{MsgSplitter, split, flush}
use tg_ws_proxy_go.Crypto.Stream.{KeyStream, Stream, xor_key_stream}
use tg_ws_proxy_go.Bridge.{send, bridge_up}
use tg_ws_proxy_go.Bridge.Loops.{
  Operation, client_read, upstream_write, upstream_read, upstream_body_read, client_write, Loop,
  Sent, is_empty, behind, send_parts, flush_parts, up_last, up_loop,
}

-- The messages up to the first whose write fails, that one included; the first is write number k.
abbrev pub tried : (ℕ → Bool) → ℕ → List Bytes → List Bytes
tried writes k [] = []
tried writes k (p ∷ parts) = if writes k then p ∷ tried writes (suc k) parts else p ∷ []

-- Whether the writes of all of these succeed.
abbrev pub all_written : (ℕ → Bool) → ℕ → List Bytes → Bool
all_written writes k [] = true
all_written writes k (p ∷ parts) = if writes k then all_written writes (suc k) parts else false

pub all_written_ok :
    (writes : ℕ → Bool) (k : ℕ) (p : Bytes) (parts : List Bytes)
    → writes k ≡ true
    → all_written writes k (p ∷ parts) ≡ all_written writes (suc k) parts
all_written_ok writes k p parts h = rw (h) refl

pub tried_ok :
    (writes : ℕ → Bool) (k : ℕ) (p : Bytes) (parts : List Bytes)
    → writes k ≡ true
    → tried writes k (p ∷ parts) ≡ p ∷ tried writes (suc k) parts
tried_ok writes k p parts h = rw (h) refl

module _ (ctr : KeyStream) (writes : ℕ → Bool) where
  send_parts-whole :
      (k : ℕ) (enc : Stream) (parts : List Bytes)
      → (send_parts ctr writes k enc parts).is_ok ≡ true
      → ((send_parts ctr writes k enc parts).enc, (send_parts ctr writes k enc parts).out)
        ≡ send ctr enc parts
  unfolding send_parts send
  send_parts-whole k enc [] h = refl
  send_parts-whole k enc (p ∷ parts) h =
      let (enc', out) = xor_key_stream ctr enc p in
      elim (Bool-cases (writes k)) [
        | inl f ↦ rw (f) (
            ap (λ (t : Stream × List Bytes). (t.0, out ∷ t.1))
              (send_parts-whole (suc k) enc' parts (ground (arith, f, h))))
        | inr f ↦ absurd (ground (arith, f, h))
      ]

  -- Behind a read whose writes succeed, the numbers go on.
  send_parts-tried :
      (k : ℕ) (enc : Stream) (parts later : List Bytes)
      → (send_parts ctr writes k enc parts).is_ok ≡ true
      → let sent = send_parts ctr writes k enc parts in
        (tried writes k (sent.out ++ later) ≡ sent.out ++ tried writes sent.next later)
        × (all_written writes k (sent.out ++ later) ≡ all_written writes sent.next later)
  unfolding send_parts
  send_parts-tried k enc [] later h = (refl, refl)
  send_parts-tried k enc (p ∷ parts) later h =
      let (enc', out) = xor_key_stream ctr enc p in
      elim (Bool-cases (writes k)) [
        | inl f ↦
            let (t, a) = send_parts-tried (suc k) enc' parts later (ground (arith, f, h)) in
            let both = (send_parts ctr writes (suc k) enc' parts).out ++ later in
            rw (f) (
              tried_ok writes k out both f ∙ ap (λ l. out ∷ l) t,
              all_written_ok writes k out both f ∙ a,
            )
        | inr f ↦ absurd (ground (arith, f, h))
      ]

  send_parts-failed :
      (k : ℕ) (enc : Stream) (parts later : List Bytes)
      → (send_parts ctr writes k enc parts).is_ok ≡ false
      → let all = (send ctr enc parts).1 ++ later in
        ((send_parts ctr writes k enc parts).out ≡ tried writes k all)
        × (all_written writes k all ≡ false)
  unfolding send_parts send
  send_parts-failed k enc [] later h = absurd (ground (arith, h))
  send_parts-failed k enc (p ∷ parts) later h =
      let (enc', out) = xor_key_stream ctr enc p in
      elim (Bool-cases (writes k)) [
        | inl f ↦
            let (t, a) = send_parts-failed (suc k) enc' parts later (ground (arith, f, h)) in
            rw (f) (ap (λ l. out ∷ l) t, a)
        | inr f ↦ rw (f) (refl, refl)
      ]

-- Where the loop stops with the client, all writes of `body` succeed and all is sent, `tail` too; where it
-- stops with a write, one of these fails, and what is sent is `body` up to the first that does.
abbrev pub IsWritten : (ℕ → Bool) → ℕ → Operation → List Bytes → List Bytes → List Bytes → Type 0
IsWritten writes k client_read out body tail =
    (all_written writes k body ≡ true) × (out ≡ body ++ tail)
IsWritten writes k upstream_write out body tail =
    (all_written writes k body ≡ false) × (out ≡ tried writes k body)
IsWritten writes k _ out body tail = ⊥

IsWritten-behind :
    (writes : ℕ → Bool) (k n : ℕ) (op : Operation) (front out body tail : List Bytes)
    → (tried writes k (front ++ body) ≡ front ++ tried writes n body)
      × (all_written writes k (front ++ body) ≡ all_written writes n body)
    → IsWritten writes n op out body tail
    → IsWritten writes k op (front ++ out) (front ++ body) tail
IsWritten-behind writes k n client_read front out body tail (e, a) (g, h) =
    (a ∙ g, ap (λ t. front ++ t) h ∙ sym (append_assoc front body tail))
IsWritten-behind writes k n upstream_write front out body tail (e, a) (g, h) =
    (a ∙ g, ap (λ t. front ++ t) h ∙ sym e)
IsWritten-behind writes k n upstream_read front out body tail e h = elim h [ ]
IsWritten-behind writes k n upstream_body_read front out body tail e h = elim h [ ]
IsWritten-behind writes k n client_write front out body tail e h = elim h [ ]

abbrev after_sent : Sent → Loop → Loop
after_sent sent later =
    if sent.is_ok
    then behind sent.out later
    else record { out = sent.out; stopped = upstream_write }

module _ (ctr : KeyStream) where
  -- What a session writes, in two parts: the messages of its reads, and those of the flush.
  abbrev pub up_messages : MsgSplitter → Stream → Stream → List Bytes → List Bytes × List Bytes
  up_messages m dec enc [] = ([], (send ctr enc (flush m).1).1)
  up_messages m dec enc (chunk ∷ chunks) =
      let (dec', plain) = xor_key_stream ctr dec chunk in
      let (m', parts) = split m plain in
      let (enc', outs) = send ctr enc parts in
      let later = up_messages m' dec' enc' chunks in (outs ++ later.0, later.1)

  bridge_up-up_messages :
      (m : MsgSplitter) (dec enc : Stream) (chunks : List Bytes)
      → bridge_up ctr m dec enc chunks
        ≡ (up_messages m dec enc chunks).0 ++ (up_messages m dec enc chunks).1
  unfolding bridge_up
  bridge_up-up_messages m dec enc [] = refl
  bridge_up-up_messages m dec enc (chunk ∷ chunks) =
      let (dec', plain) = xor_key_stream ctr dec chunk in
      let (m', parts) = split m plain in
      let (enc', outs) = send ctr enc parts in
      let later = up_messages m' dec' enc' chunks in
      ap (λ t. outs ++ t) (bridge_up-up_messages m' dec' enc' chunks)
      ∙ sym (append_assoc outs later.0 later.1)

  -- A read without bytes changes nothing.
  up_messages-empty :
      (m : MsgSplitter) (dec enc : Stream) (chunk : Bytes) (chunks : List Bytes)
      → (length chunk == 0) ≡ true
      → up_messages m dec enc (chunk ∷ chunks) ≡ up_messages m dec enc chunks
  unfolding split xor_key_stream send
  up_messages-empty m dec enc chunk chunks h =
      ap (λ c. up_messages m dec enc (c ∷ chunks))
        (length_zero chunk ((==_iff (length chunk) 0).0 h))
      ∙ ap (λ n. up_messages m (record dec { position = n }) enc chunks) (omega arith)

  -- A read without a packet: nothing is sent, and the loop goes on.
  none_sent :
      (enc : Stream) (parts : List Bytes) → is_empty parts ≡ true → send ctr enc parts ≡ (enc, [])
  unfolding send
  none_sent enc [] h = refl
  none_sent enc (p ∷ parts) h = ground arith

module _ (ctr : KeyStream) (writes : ℕ → Bool) where
  -- What a read comes to, from what comes to the rest of the reads.
  sent-IsWritten :
      (k : ℕ) (enc : Stream) (parts body tail : List Bytes) (later : Loop)
      → ((send_parts ctr writes k enc parts).is_ok ≡ true
          → IsWritten writes
              (send_parts ctr writes k enc parts).next
              later.stopped
              later.out
              body
              tail)
      → IsWritten writes k
          (after_sent (send_parts ctr writes k enc parts) later).stopped
          (after_sent (send_parts ctr writes k enc parts) later).out
          ((send ctr enc parts).1 ++ body)
          tail
  sent-IsWritten k enc parts body tail later h =
      let sent = send_parts ctr writes k enc parts in
      elim (Bool-cases sent.is_ok) [
        | inl f ↦ rw (f) (
            subst (λ t. IsWritten writes k later.stopped (sent.out ++ later.out) (t ++ body) tail)
              (ap (λ (t : Stream × List Bytes). t.1) (send_parts-whole ctr writes k enc parts f))
              (IsWritten-behind writes k sent.next later.stopped sent.out later.out body tail
                (send_parts-tried ctr writes k enc parts body f) (h f)))
        | inr f ↦ let (t, a) = send_parts-failed ctr writes k enc parts body f in rw (f) (a, t)
      ]

  -- The two parts of a session, for a loop.
  abbrev WritesAs : ℕ → Loop → List Bytes × List Bytes → Type 0
  WritesAs k l messages = IsWritten writes k l.stopped l.out messages.0 messages.1

  up_last-IsWritten :
      (k : ℕ) (m : MsgSplitter) (dec enc : Stream) (last : Bytes)
      → WritesAs k (up_last ctr writes k m dec enc last) (up_messages ctr m dec enc (last ∷ []))
  unfolding up_last flush_parts
  up_last-IsWritten k m dec enc last =
      let (dec', plain) = xor_key_stream ctr dec last in
      let (m', parts) = split m plain in
      let sent = send_parts ctr writes k enc parts in
      elim (Bool-cases (length last == 0)) [
        | inl e ↦
            rw (up_last, e)
              (subst (WritesAs k (flush_parts ctr writes m enc))
                (sym (up_messages-empty ctr m dec enc last [] e)) (refl, refl))
        | inr e ↦ elim (Bool-cases (is_empty parts)) [
          | inl f ↦ rw (up_last, e, f, none_sent ctr enc parts f) (refl, refl)
          | inr f ↦
              rw (up_last, e, f)
                (sent-IsWritten k enc parts [] (send ctr (send ctr enc parts).0 (flush m').1).1
                  (flush_parts ctr writes m' sent.enc)
                  (λ g. (
                    refl,
                    ap (λ (t : Stream × List Bytes). (send ctr t.0 (flush m').1).1)
                        (send_parts-whole ctr writes k enc parts g),
                  )))
        ]
      ]

  up_loop-WritesAs :
      (k : ℕ) (m : MsgSplitter) (dec enc : Stream) (chunks : List Bytes) (last : Bytes)
      → WritesAs k
          (up_loop ctr writes k m dec enc chunks last)
          (up_messages ctr m dec enc (chunks ++ last ∷ []))
  unfolding up_loop
  up_loop-WritesAs k m dec enc [] last = up_last-IsWritten k m dec enc last
  up_loop-WritesAs k m dec enc (chunk ∷ chunks) last =
      let (dec', plain) = xor_key_stream ctr dec chunk in
      let (m', parts) = split m plain in
      let sent = send_parts ctr writes k enc parts in
      let later = up_messages ctr m' dec' (send ctr enc parts).0 (chunks ++ last ∷ []) in
      elim (Bool-cases (length chunk == 0)) [
        | inl e ↦
            rw (up_loop, e)
              (subst (WritesAs k (up_loop ctr writes k m dec enc chunks last))
                (sym (up_messages-empty ctr m dec enc chunk (chunks ++ last ∷ []) e))
                (up_loop-WritesAs k m dec enc chunks last))
        | inr e ↦ elim (Bool-cases (is_empty parts)) [
          | inl f ↦
              rw (up_loop, e, f)
                (subst
                  (λ (t : Stream × List Bytes).
                    let rest = up_messages ctr m' dec' t.0 (chunks ++ last ∷ []) in
                    WritesAs k (up_loop ctr writes k m' dec' enc chunks last)
                      (t.1 ++ rest.0, rest.1))
                  (sym (none_sent ctr enc parts f)) (up_loop-WritesAs k m' dec' enc chunks last))
          | inr f ↦
              rw (up_loop, e, f)
                (sent-IsWritten k enc parts later.0 later.1
                  (up_loop ctr writes sent.next m' dec' sent.enc chunks last)
                  (λ g.
                    subst
                      (λ (t : Stream × List Bytes).
                        WritesAs sent.next
                          (up_loop ctr writes sent.next m' dec' sent.enc chunks last)
                          (up_messages ctr m' dec' t.0 (chunks ++ last ∷ [])))
                      (send_parts-whole ctr writes k enc parts g)
                      (up_loop-WritesAs sent.next m' dec' sent.enc chunks last)))
        ]
      ]

  -- The client's side of bridgeWS with a splitter, whatever it reads and whichever writes fail. What the
  -- session writes is the messages of its reads and then those of the flush. If all writes of the
  -- messages of the reads succeed, the loop stops with the client's error and has sent all of both; else
  -- it stops with upstream_write and has sent the messages up to the first whose write fails, and none
  -- after it.
  pub up_loop-IsWritten :
      (k : ℕ) (m : MsgSplitter) (dec enc : Stream) (chunks : List Bytes) (last : Bytes)
      → let messages = up_messages ctr m dec enc (chunks ++ last ∷ []) in
        (bridge_up ctr m dec enc (chunks ++ last ∷ []) ≡ messages.0 ++ messages.1)
        × IsWritten writes k
            (up_loop ctr writes k m dec enc chunks last).stopped
            (up_loop ctr writes k m dec enc chunks last).out
            messages.0
            messages.1
  up_loop-IsWritten k m dec enc chunks last = (
    bridge_up-up_messages ctr m dec enc (chunks ++ last ∷ []),
    up_loop-WritesAs k m dec enc chunks last,
  )
