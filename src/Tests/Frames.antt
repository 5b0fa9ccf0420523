-- ===== src/Tests/Frames.antt =====
-- A frame on the connection to the router.
use pywings.Prelude.{ℕ, ◌≡◌, refl, Option, none, some, List, [], ◌∷◌, ◌++◌}
use pywings.Cluster.{Socket, frame, pack, send_frame, recv_frame}
use pywings.Cluster.Frames.{recv_frame-send_frame}

-- The meta data are a number, and its text one byte.
abbrev dumps : ℕ → List ℕ
dumps n = n ∷ []

abbrev loads : List ℕ → Option ℕ
loads [] = none
loads (n ∷ ns) = some n

abbrev wire : List ℕ
wire = 0 ∷ 0 ∷ 0 ∷ 7 ∷ 0 ∷ 0 ∷ 0 ∷ 1 ∷ 42 ∷ 104 ∷ 105 ∷ []

sent : send_frame dumps loads 42 (104 ∷ 105 ∷ []) ≡ some wire
unfolding send_frame pack
sent = refl

-- The bytes arrive one, two and three at a time.
recv_frame-send_frame_example :
    (s : Socket) × (s.incoming ≡ 9 ∷ [])
    × (recv_frame dumps loads (record { incoming = wire ++ (9 ∷ []); sizes = 1 ∷ 2 ∷ 3 ∷ 3 ∷ [] })
        ≡ (frame 42 (104 ∷ 105 ∷ []), s))
recv_frame-send_frame_example =
    recv_frame-send_frame dumps loads 42 (104 ∷ 105 ∷ []) (9 ∷ []) (1 ∷ 2 ∷ 3 ∷ 3 ∷ []) wire refl
      sent
