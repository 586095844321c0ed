-- ===== src/Bridge/Delivered.antt =====
-- What Telegram's side of bridgeWS (src/transport.go) has written to the client when it stops.
use tg_ws_proxy_go.Base.{
  ℕ, suc, ◌≡◌, refl, sym, subst, ap, ◌∙◌, inl, inr, Bool-cases, List, [], ◌∷◌, ◌++◌, Bool, true,
  false, not, ◌&&◌, Bytes, length, ◌==◌, if◌then◌else◌, append-nil, arith,
}
use tg_ws_proxy_go.Crypto.Stream.{KeyStream, Stream, xor_key_stream}
use tg_ws_proxy_go.Bridge.{forward}
use tg_ws_proxy_go.Bridge.Loops.{
  Operation, client_read, upstream_write, upstream_read, upstream_body_read, client_write,
  WsMessage, down_body, down_loop,
}
use tg_ws_proxy_go.Bridge.Written.{tried, tried_ok, all_written, all_written_ok}

-- The reads of the binary messages that have bytes.
abbrev pub with_bytes : List Bytes → List Bytes
with_bytes [] = []
with_bytes (chunk ∷ chunks) =
    if length chunk == 0 then with_bytes chunks else chunk ∷ with_bytes chunks

-- The reads of the binary messages, up to one whose body fails.
abbrev pub binary_reads : List WsMessage → List Bytes
binary_reads [] = []
binary_reads (message ∷ messages) =
    if not message.is_binary
    then binary_reads messages
    else if message.is_whole
    then with_bytes message.body ++ binary_reads messages
    else with_bytes message.body ++ []

abbrev pub all_whole : List WsMessage → Bool
all_whole [] = true
all_whole (message ∷ messages) =
    if message.is_binary && not message.is_whole then false else all_whole messages

-- Where the loop stops with Telegram, all writes succeed and all is sent: with upstream_read if no body
-- fails, and with upstream_body_read if one does. Where it stops with a write, one fails, and what is
-- sent goes up to the first that does.
abbrev pub IsDelivered : (ℕ → Bool) → ℕ → Operation → List Bytes → List Bytes → Bool → Type 0
IsDelivered writes k upstream_read out whole bodies =
    (all_written writes k whole ≡ true) × (out ≡ whole) × (bodies ≡ true)
IsDelivered writes k upstream_body_read out whole bodies =
    (all_written writes k whole ≡ true) × (out ≡ whole) × (bodies ≡ false)
IsDelivered writes k client_write out whole bodies =
    (all_written writes k whole ≡ false) × (out ≡ tried writes k whole)
IsDelivered writes k _ out whole bodies = ⊥

IsDelivered-behind :
    (writes : ℕ → Bool) (k n : ℕ) (op : Operation) (front out whole : List Bytes) (bodies : Bool)
    → (tried writes k (front ++ whole) ≡ front ++ tried writes n whole)
      × (all_written writes k (front ++ whole) ≡ all_written writes n whole)
    → IsDelivered writes n op out whole bodies
    → IsDelivered writes k op (front ++ out) (front ++ whole) bodies
IsDelivered-behind writes k n upstream_read front out whole bodies (e, a) (g, h, i) =
    (a ∙ g, ap (λ t. front ++ t) h, i)
IsDelivered-behind writes k n upstream_body_read front out whole bodies (e, a) (g, h, i) =
    (a ∙ g, ap (λ t. front ++ t) h, i)
IsDelivered-behind writes k n client_write front out whole bodies (e, a) (g, h) =
    (a ∙ g, ap (λ t. front ++ t) h ∙ sym e)
IsDelivered-behind writes k n client_read front out whole bodies e h = elim h [ ]
IsDelivered-behind writes k n upstream_write front out whole bodies e h = elim h [ ]

module _ (ctr : KeyStream) (writes : ℕ → Bool) where
  -- The streams behind a row of reads, where all of its writes succeed.
  down_body-whole :
      (k : ℕ) (dec enc : Stream) (chunks later : List Bytes)
      → (down_body ctr writes k dec enc chunks).1.is_ok ≡ true
      → forward ctr dec enc (with_bytes chunks ++ later)
        ≡ (down_body ctr writes k dec enc chunks).1.out
          ++ forward ctr
              (down_body ctr writes k dec enc chunks).0.1
              (down_body ctr writes k dec enc chunks).1.enc
              later
  unfolding down_body forward
  down_body-whole k dec enc [] later h = refl
  down_body-whole k dec enc (chunk ∷ chunks) later h =
      let (dec', plain) = xor_key_stream ctr dec chunk in
      let (enc', out) = xor_key_stream ctr enc plain in
      elim (Bool-cases (length chunk == 0)) [
        | inl e ↦ rw (e) (down_body-whole k dec enc chunks later (ground (arith, e, h)))
        | inr e ↦ elim (Bool-cases (writes k)) [
          | inl f ↦
              rw (e, f)
                (ap (λ t. out ∷ t)
                  (down_body-whole (suc k) dec' enc' chunks later (ground (arith, e, f, h))))
          | inr f ↦ absurd (ground (arith, e, f, h))
        ]
      ]

  -- Behind a row of reads whose writes succeed, the numbers go on.
  down_body-tried :
      (k : ℕ) (dec enc : Stream) (chunks later : List Bytes)
      → (down_body ctr writes k dec enc chunks).1.is_ok ≡ true
      → let body = down_body ctr writes k dec enc chunks in
        (tried writes k (body.1.out ++ later) ≡ body.1.out ++ tried writes body.0.0 later)
        × (all_written writes k (body.1.out ++ later) ≡ all_written writes body.0.0 later)
  unfolding down_body
  down_body-tried k dec enc [] later h = (refl, refl)
  down_body-tried k dec enc (chunk ∷ chunks) later h =
      let (dec', plain) = xor_key_stream ctr dec chunk in
      let (enc', out) = xor_key_stream ctr enc plain in
      elim (Bool-cases (length chunk == 0)) [
        | inl e ↦ rw (e) (down_body-tried k dec enc chunks later (ground (arith, e, h)))
        | inr e ↦ elim (Bool-cases (writes k)) [
          | inl f ↦
              let (t, a) =
                down_body-tried (suc k) dec' enc' chunks later (ground (arith, e, f, h)) in
              let both = (down_body ctr writes (suc k) dec' enc' chunks).1.out ++ later in
              rw (e, f)
                (
                  tried_ok writes k out both f ∙ ap (λ l. out ∷ l) t,
                  all_written_ok writes k out both f ∙ a,
                )
          | inr f ↦ absurd (ground (arith, e, f, h))
        ]
      ]

  down_body-failed :
      (k : ℕ) (dec enc : Stream) (chunks later : List Bytes)
      → (down_body ctr writes k dec enc chunks).1.is_ok ≡ false
      → let all = forward ctr dec enc (with_bytes chunks ++ later) in
        (all_written writes k all ≡ false)
        × ((down_body ctr writes k dec enc chunks).1.out ≡ tried writes k all)
  unfolding down_body forward
  down_body-failed k dec enc [] later h = absurd (ground (arith, h))
  down_body-failed k dec enc (chunk ∷ chunks) later h =
      let (dec', plain) = xor_key_stream ctr dec chunk in
      let (enc', out) = xor_key_stream ctr enc plain in
      elim (Bool-cases (length chunk == 0)) [
        | inl e ↦ rw (e) (down_body-failed k dec enc chunks later (ground (arith, e, h)))
        | inr e ↦ elim (Bool-cases (writes k)) [
          | inl f ↦
              let (a, t) =
                down_body-failed (suc k) dec' enc' chunks later (ground (arith, e, f, h)) in
              rw (e, f) (a, ap (λ l. out ∷ l) t)
          | inr f ↦ rw (e, f) (refl, refl)
        ]
      ]

  -- The reads of a body that ends the loop, all of them written.
  down_body-last :
      (k : ℕ) (dec enc : Stream) (chunks : List Bytes)
      → (down_body ctr writes k dec enc chunks).1.is_ok ≡ true
      → let all = forward ctr dec enc (with_bytes chunks ++ []) in
        (all_written writes k all ≡ true) × ((down_body ctr writes k dec enc chunks).1.out ≡ all)
  unfolding forward
  down_body-last k dec enc chunks f =
      let out = (down_body ctr writes k dec enc chunks).1.out in
      let whole = down_body-whole k dec enc chunks [] f in
      (
        ap (all_written writes k) whole ∙ (down_body-tried k dec enc chunks [] f).1,
        sym (whole ∙ append-nil out),
      )

  -- Telegram's side of bridgeWS, whatever it reads and whichever writes fail. What is to be sent is what the
  -- binary messages hold, read by read, through both streams, up to a body that fails, and nothing
  -- of other messages. If all these writes succeed, it is all sent, and the loop stops with
  -- upstream_read, or with upstream_body_read exactly if a body fails; else it stops with client_write
  -- and has sent the reads up to the first whose write fails, and none after it.
  pub down_loop-IsDelivered :
      (k : ℕ) (dec enc : Stream) (messages : List WsMessage)
      → IsDelivered writes k
          (down_loop ctr writes k dec enc messages).stopped
          (down_loop ctr writes k dec enc messages).out
          (forward ctr dec enc (binary_reads messages))
          (all_whole messages)
  unfolding down_loop forward
  down_loop-IsDelivered k dec enc [] = (refl, refl, refl)
  down_loop-IsDelivered k dec enc (message ∷ messages) =
      let body = down_body ctr writes k dec enc message.body in
      let later = down_loop ctr writes body.0.0 body.0.1 body.1.enc messages in
      let rest = forward ctr body.0.1 body.1.enc (binary_reads messages) in
      elim (Bool-cases message.is_binary) [
        | inr e ↦ rw (down_loop, e) (down_loop-IsDelivered k dec enc messages)
        | inl e ↦ elim (Bool-cases message.is_whole) [
          | inl g ↦ elim (Bool-cases body.1.is_ok) [
            | inl f ↦
                rw (down_loop, e, g, f)
                  (subst
                    (λ t.
                      IsDelivered writes k later.stopped (body.1.out ++ later.out) t
                        (all_whole messages))
                    (sym (down_body-whole k dec enc message.body (binary_reads messages) f))
                    (IsDelivered-behind writes k body.0.0 later.stopped body.1.out later.out rest
                      (all_whole messages) (down_body-tried k dec enc message.body rest f)
                      (down_loop-IsDelivered body.0.0 body.0.1 body.1.enc messages)))
            | inr f ↦
                rw (down_loop, e, g, f)
                  (down_body-failed k dec enc message.body (binary_reads messages) f)
          ]
          | inr g ↦ elim (Bool-cases body.1.is_ok) [
            | inl f ↦
                let (a, t) = down_body-last k dec enc message.body f in
                rw (down_loop, e, g, f) (a, t, refl)
            | inr f ↦ rw (down_loop, e, g, f) (down_body-failed k dec enc message.body [] f)
          ]
        ]
      ]
