-- ===== src/Cluster/Frames.antt =====
-- A frame that is sent is received.
use pywings.Prelude.{
  ℕ, ◌+◌, ◌-◌, ◌<◌, ◌≡◌, refl, ap, sym, ◌∙◌, Option, some, List, [], ◌∷◌, ◌++◌, length, take, drop,
  arith,
}
use mathlib.Core.List.{append_assoc}
use pywings.Cluster.{
  Socket, pack, unpack, Received, frame, send_frame, finish_frame, after, recv_payload, recv_body,
  recv_frame,
}
use pywings.Cluster.Receiving.{recv_exact-append}

unpack-pack : (n : ℕ) → n < 4294967296 → unpack (pack n) ≡ n
unfolding pack unpack
unpack-pack n h = omega arith

module _ {Meta : Type 0} (dumps : Meta → List ℕ) (loads : List ℕ → Option Meta) where
  -- The rest of the stream is left for the next frame.
  abbrev Gets : Received Meta × Socket → Received Meta → List ℕ → Type 0
  Gets x r rest = (s : Socket) × (s.incoming ≡ rest) × (x ≡ (r, s))

  recv_payload-append :
      (bytes payload rest sizes : List ℕ)
      → Gets
          (recv_payload dumps loads
            (length payload)
            bytes
            (record { incoming = payload ++ rest; sizes = sizes }))
          (finish_frame dumps loads bytes payload)
          rest
  unfolding recv_payload
  recv_payload-append bytes [] rest sizes = (record { incoming = rest; sizes = sizes }, refl, refl)
  recv_payload-append bytes (p ∷ ps) rest sizes =
      let (left, e) = recv_exact-append (p ∷ ps) rest sizes in
      (
        record { incoming = rest; sizes = left },
        refl,
        ap (λ r. after dumps loads r (λ payload s'. (finish_frame dumps loads bytes payload, s')))
            e,
      )

  recv_body-append :
      (total : ℕ) (bytes payload rest sizes : List ℕ)
      → total ≡ 4 + length bytes + length payload
      → Gets
          (recv_body dumps loads total
            (length bytes)
            (record { incoming = bytes ++ (payload ++ rest); sizes = sizes }))
          (finish_frame dumps loads bytes payload)
          rest
  unfolding recv_body
  recv_body-append total bytes payload rest sizes whole =
      let (left, e) = recv_exact-append bytes (payload ++ rest) sizes in
      let (s, kept, f) = recv_payload-append bytes payload rest left in
      let n : total - 4 - length bytes ≡ length payload = omega (arith, whole) in
      (
        s,
        kept,
        ap
              (λ r.
                after dumps loads r
                  (λ bs s'. recv_payload dumps loads (total - 4 - length bytes) bs s'))
              e
            ∙ ap
                (λ k.
                  recv_payload dumps loads k bytes
                    (record { incoming = payload ++ rest; sizes = left }))
                n
            ∙ f,
      )

  -- The bytes of a frame.
  abbrev wire : ℕ → List ℕ → List ℕ → List ℕ
  wire total bytes payload = pack total ++ (pack (length bytes) ++ (bytes ++ payload))

  send_frame-eq :
      (m : Meta) (payload bytes : List ℕ)
      → send_frame dumps loads m payload ≡ some bytes
      → (4 + length (dumps m) + length payload < 4294967296)
        × (wire (4 + length (dumps m) + length payload) (dumps m) payload ≡ bytes)
  unfolding send_frame
  send_frame-eq m payload bytes sent = ground arith

  recv_frame-wire :
      (total : ℕ) (bytes payload rest sizes : List ℕ)
      → total ≡ 4 + length bytes + length payload
      → total < 4294967296
      → Gets
          (recv_frame dumps loads
            (record { incoming = wire total bytes payload ++ rest; sizes = sizes }))
          (finish_frame dumps loads bytes payload)
          rest
  unfolding recv_frame pack
  recv_frame-wire total bytes payload rest sizes whole short =
      let (left, e) =
        recv_exact-append (pack total ++ pack (length bytes)) ((bytes ++ payload) ++ rest) sizes in
      let (s, kept, f) = recv_body-append total bytes payload rest left whole in
      (
        s,
        kept,
        ap
              (λ r.
                after dumps loads r (λ head s'.
                  recv_body dumps loads (unpack (take 4 head)) (unpack (drop 4 head)) s'))
              e
            ∙ ap
                (λ k.
                  recv_body dumps loads k (unpack (pack (length bytes)))
                    (record { incoming = (bytes ++ payload) ++ rest; sizes = left }))
                (unpack-pack total short)
            ∙ ap
                (λ k.
                  recv_body dumps loads total k
                    (record { incoming = (bytes ++ payload) ++ rest; sizes = left }))
                (unpack-pack (length bytes) (omega (arith, whole, short)))
            ∙ ap
                (λ l.
                  recv_body dumps loads total (length bytes)
                    (record { incoming = l; sizes = left }))
                (append_assoc bytes payload rest)
            ∙ f,
      )

  -- A frame that is sent is received: `recv_frame` returns the meta data and the payload that
  -- `send_frame` was given, in whatever pieces the bytes arrive, and leaves what comes behind the
  -- frame; `json` has to read back what it wrote, and the frame to be short enough to be sent.
  pub recv_frame-send_frame :
      (m : Meta) (payload rest sizes bytes : List ℕ)
      → loads (dumps m) ≡ some m
      → send_frame dumps loads m payload ≡ some bytes
      → (s : Socket) × (s.incoming ≡ rest)
        × (recv_frame dumps loads (record { incoming = bytes ++ rest; sizes = sizes })
            ≡ (frame m payload, s))
  unfolding finish_frame
  recv_frame-send_frame m payload rest sizes bytes read sent =
      let (short, same) = send_frame-eq m payload bytes sent in
      let (s, kept, e) =
        recv_frame-wire (4 + length (dumps m) + length payload) (dumps m) payload rest sizes refl
          short in
      (
        s,
        kept,
        ap (λ l. recv_frame dumps loads (record { incoming = l ++ rest; sizes = sizes })) (sym same)
            ∙ e
            ∙ ap (λ r. (r, s)) (rw (read, finish_frame) refl),
      )
