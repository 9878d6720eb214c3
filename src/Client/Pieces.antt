-- ===== src/Client/Pieces.antt =====
-- src/client/cluster_client.cpp: the buffers of a part, byte by byte.
use vitastor.Base.{
  ℕ, ◌+◌, ◌-◌, ◌≡◌, refl, inl, inr, Bool, true, ◌&&◌, List, [], ◌∷◌, ◌++◌, Option, none, some, ltb,
  leb, if◌then◌else◌, arith, Bool-cases,
}
use vitastor.Client.Slices.{Piece, user, scrap, add_iov}

-- The byte of the operation's buffers that a part's byte belongs to.
unfoldable pub piece_byte : List Piece → ℕ → Option ℕ
piece_byte [] k = none
piece_byte (user pos n ∷ ps) k = if ltb k n then some (pos + k) else piece_byte ps (k - n)
piece_byte (scrap n ∷ ps) k = if ltb k n then none else piece_byte ps (k - n)

unfoldable pub pieces_size : List Piece → ℕ
pieces_size [] = 0
pieces_size (user pos n ∷ ps) = n + pieces_size ps
pieces_size (scrap n ∷ ps) = n + pieces_size ps

pub pieces_size-append :
    (ps qs : List Piece) → pieces_size (ps ++ qs) ≡ pieces_size ps + pieces_size qs
unfolding pieces_size
pieces_size-append [] qs = omega arith
pieces_size-append (user pos n ∷ ps) qs = omega (arith, pieces_size-append ps qs)
pieces_size-append (scrap n ∷ ps) qs = omega (arith, pieces_size-append ps qs)

pub piece_byte-append :
    (ps qs : List Piece) (k : ℕ)
    → piece_byte (ps ++ qs) k
      ≡ (if ltb k (pieces_size ps) then piece_byte ps k else piece_byte qs (k - pieces_size ps))
unfolding piece_byte pieces_size
piece_byte-append [] qs k = let e : k - 0 ≡ k = omega arith in ground (arith, e)
piece_byte-append (user pos n ∷ ps) qs k =
    let e : k - n - pieces_size ps ≡ k - (n + pieces_size ps) = omega arith in
    elim (Bool-cases (ltb k n)) [
      | inl y ↦ ground (arith, y)
      | inr f ↦ rw f (ground (arith, f, e, piece_byte-append ps qs (k - n)))
    ]
piece_byte-append (scrap n ∷ ps) qs k =
    let e : k - n - pieces_size ps ≡ k - (n + pieces_size ps) = omega arith in
    elim (Bool-cases (ltb k n)) [
      | inl y ↦ ground (arith, y)
      | inr f ↦ rw f (ground (arith, f, e, piece_byte-append ps qs (k - n)))
    ]

-- What a byte between two bounds is read into.
abbrev pub part_byte : ℕ → ℕ → List Piece → ℕ → Option ℕ
part_byte begin end iov x = if leb begin x && ltb x end then piece_byte iov (x - begin) else none

pub add_iov_pos :
    (size : ℕ) (skip : Bool) (pos scrap_len : ℕ) (iov : List Piece)
    → (add_iov size skip pos iov scrap_len).0 ≡ pos + size
unfolding add_iov
add_iov_pos size skip pos scrap_len iov = refl

pub add_iov_none : (size pos : ℕ) (iov : List Piece) → (add_iov size true pos iov 0).1 ≡ iov
unfolding add_iov
add_iov_none size pos iov = ground arith
