-- ===== src/Receiver/Stream.antt =====
-- The two loops of `receiver_thread` on a stream: how the network cuts the stream does not matter.
use zdia.Prelude.{
  ℕ, zero, suc, ◌+◌, ◌-◌, ◌^◌, ◌≤◌, ◌<◌, ◌≡◌, ◌≢◌, refl, sym, ap, ap₂, ◌∙◌, false, some, [], ◌++◌,
  append_assoc, append-nil, arith, lt→ltb, ge→ltb, le→leb, Run, ok, length, take, drop,
  length-append, take_all, take-append_length, drop-append_length, take_append-drop_add, drop-drop,
  add32, dec_lt, ne→==, ◌==◌,
}
use zdia.Bytes.{Bytes, splice}
use zdia.Bytes.Splices.{length-splice, take-splice, slice-splice}
use zdia.Conn.{Network, IsStream, got, conn_recv}
use zdia.Receiver.{store_chunk, header_chunk, read_header, read_body}

take-append_add :
    (xs ys : Bytes) (m n : ℕ) → length xs ≡ m → take (m + n) (xs ++ ys) ≡ xs ++ take n ys
take-append_add xs ys m n h =
    take_append-drop_add m n (xs ++ ys)
    ∙ ap₂ ◌++◌ (take-append_length xs ys m h) (ap (take n) (drop-append_length xs ys m h))

drop-append_add : (xs ys : Bytes) (m n : ℕ) → length xs ≡ m → drop (m + n) (xs ++ ys) ≡ drop n ys
drop-append_add xs ys m n h =
    sym (drop-drop n m (xs ++ ys)) ∙ ap (drop n) (drop-append_length xs ys m h)

-- A write, and all that stands in front of it.
take-splice_end :
    (bs src : Bytes) (off : ℕ)
    → off ≤ length bs
    → take (off + length src) (splice bs off src) ≡ take off bs ++ src
take-splice_end bs src off h =
    take_append-drop_add off (length src) (splice bs off src)
    ∙ ap₂ ◌++◌ (take-splice bs src off off (omega arith) h) (slice-splice bs src off h)

nonempty : (s : Bytes) → 0 < length s → s ≢ []
nonempty s h e = omega (arith, ap length e)

module _ {Net : Type 0} (n : Network Net) (pending : Net → Bytes)
    (stream : IsStream n pending) where
  -- A chunk of the stream, with what it leaves.
  record Chunk (net : Net) (k : ℕ) : Type 0 where
    b : Bytes
    net' : Net
    received : n.recv net k ≡ (got b, net')
    some_bytes : 0 < length b
    fits : length b ≤ k
    front : (j : ℕ) → take (length b + j) (pending net) ≡ b ++ take j (pending net')
    rest : (j : ℕ) → drop (length b + j) (pending net) ≡ drop j (pending net')
    left : length (pending net) ≡ length b + length (pending net')

  stream-Chunk : (net : Net) (k : ℕ) → 0 < k → k ≤ length (pending net) → Chunk net k
  stream-Chunk net k hk more =
      let (b, net', e, some_bytes, fits, cut) =
        stream.arrives net k hk (nonempty (pending net) (omega arith)) in
      record {
        b = b;
        net' = net';
        received = e;
        some_bytes = some_bytes;
        fits = fits;
        front =
            λ j. ap (take (length b + j)) cut ∙ take-append_add b (pending net') (length b) j refl;
        rest =
            λ j. ap (drop (length b + j)) cut ∙ drop-append_add b (pending net') (length b) j refl;
        left = ap length cut ∙ length-append b (pending net');
      }

  -- The rest of a message: the next bytes of the stream, in their places behind those that are
  -- there already.
  pub read_body-stream :
      (fuel k : ℕ) (net : Net) (raw : Bytes) (received : ℕ)
      → length raw ≡ received + k
      → received + k < 2 ^ 24
      → k ≤ length (pending net)
      → k < fuel
      → (net' : Net) × (read_body n fuel net raw received (received + k)
          ≡ ok (take received raw ++ take k (pending net), net'))
        × (pending net' ≡ drop k (pending net))
  unfolding read_body conn_recv store_chunk
  read_body-stream zero k net raw received whole small more enough = absurd (omega arith)
  read_body-stream (suc fuel) zero net raw received whole small more enough = (
    net,
    rw (ge→ltb received (received + 0) (omega arith))
        (ap (λ bs. ok (bs, net)) (sym (append-nil _ ∙ take_all raw received (omega arith)))),
    refl,
  )
  read_body-stream (suc fuel) (suc k) net raw received whole small more enough =
      let (net'', ran, after) =
        read_body-stream fuel j c.net' raw' (received + length c.b)
          (omega (arith, total, length-splice raw c.b received (omega (arith, c.fits))))
          (omega (arith, total)) (omega (arith, c.left, total))
          (omega (arith, total, c.some_bytes)) in
      (
        net'',
        rw (lt→ltb received (received + suc k) (omega arith), ask, c.received, stored)
            (ap (λ t. read_body n fuel c.net' raw' (received + length c.b) t) (omega (arith, total))
              ∙ ran
              ∙ ap (λ bs. ok (bs, net'')) bytes),
        after ∙ sym (c.rest j) ∙ ap (λ t. drop t (pending net)) total,
      )
    where
      c : Chunk net (suc k)
      c = stream-Chunk net (suc k) (omega arith) more

      j : ℕ
      j = suc k - length c.b

      raw' : Bytes
      raw' = splice raw received c.b

      total : length c.b + j ≡ suc k
      total = omega (arith, c.fits)

      ask : received + suc k - received ≡ suc k
      ask = omega arith

      stored : store_chunk (got c.b) raw received ≡ ok (raw', received + length c.b)
      stored =
          rw
            (
              le→leb (received + length c.b) (length raw) (omega (arith, c.fits)),
              ap {B = Run (Bytes × ℕ)} (λ t. ok (raw', t)) {x = add32 received (length c.b)}
                  {y = received + length c.b} (omega (arith, c.fits)),
            )
            refl

      bytes :
          take (received + length c.b) raw' ++ take j (pending c.net')
          ≡ take received raw ++ take (suc k) (pending net)
      bytes =
          ap (λ t. t ++ take j (pending c.net')) (take-splice_end raw c.b received (omega arith))
          ∙ append_assoc (take received raw) c.b (take j (pending c.net'))
          ∙ ap (λ t. take received raw ++ t)
              (sym (c.front j) ∙ ap (λ t. take t (pending net)) total)

  -- The first four bytes of a message: the next of the stream.
  pub read_header-stream :
      (fuel k : ℕ) (net : Net) (header : Bytes)
      → length header + suc k ≡ 4
      → suc k ≤ length (pending net)
      → k < fuel
      → (net' : Net) × (read_header n fuel net header
          ≡ ok (some (header ++ take (suc k) (pending net)), net'))
        × (pending net' ≡ drop (suc k) (pending net))
  unfolding read_header conn_recv header_chunk
  read_header-stream zero k net header four more enough = absurd (omega arith)
  read_header-stream (suc fuel) k net header four more enough = elim (dec_lt (length c.b) (suc k)) [
    | no all_in ↦ (
      c.net',
      rw
          (
            ask,
            c.received,
            not_empty,
            ge→ltb (length (header ++ c.b)) 4 (omega (arith, length-append header c.b)),
          )
          (ap (λ bs. ok (some (header ++ bs), c.net')) (whole all_in)),
      sym (c.rest 0)
          ∙ ap (λ t. drop t (pending net)) {x = length c.b + 0} {y = suc k} (omega (arith, c.fits)),
    )
    | yes more_to_come ↦
        let (net'', ran, after) =
          read_header-stream fuel (k - length c.b) c.net' (header ++ c.b)
            (omega (arith, length-append header c.b)) (omega (arith, c.left))
            (omega (arith, c.some_bytes)) in
        let j_suc : suc (k - length c.b) ≡ suc k - length c.b = omega arith in
        (
          net'',
          rw
              (
                ask,
                c.received,
                not_empty,
                lt→ltb (length (header ++ c.b)) 4 (omega (arith, length-append header c.b)),
              )
              (ran ∙ ap (λ bs. ok (some bs, net'')) (bytes (k - length c.b) (omega arith))),
          after
              ∙ sym (c.rest (suc (k - length c.b)))
              ∙ ap (λ t. drop t (pending net)) {x = length c.b + suc (k - length c.b)} {y = suc k}
                  (omega arith),
        )
  ]
    where
      c : Chunk net (suc k)
      c = stream-Chunk net (suc k) (omega arith) more

      ask : 4 - length header ≡ suc k
      ask = omega arith

      not_empty : (length c.b == 0) ≡ false
      not_empty = ne→== (length c.b) 0 (λ e. omega (arith, c.some_bytes))

      bytes :
          (j : ℕ)
          → length c.b + suc j ≡ suc k
          → (header ++ c.b) ++ take (suc j) (pending c.net') ≡ header ++ take (suc k) (pending net)
      bytes j total =
          append_assoc header c.b (take (suc j) (pending c.net'))
          ∙ ap (λ t. header ++ t) (sym (c.front (suc j)) ∙ ap (λ t. take t (pending net)) total)

      whole : ¬ (length c.b < suc k) → c.b ≡ take (suc k) (pending net)
      whole all_in =
          sym (append-nil c.b)
          ∙ sym (c.front 0)
          ∙ ap (λ t. take t (pending net)) {x = length c.b + 0} {y = suc k} (omega (arith, c.fits))
