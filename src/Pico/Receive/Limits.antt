-- ===== src/Pico/Receive/Limits.antt =====
-- What `receive` takes off the connection, and the slice of the payload's buffer.
use locoloco.Common.{
  ℕ, ◌+◌, ◌≤◌, ◌<◌, ◌≡◌, ◌≢◌, ◌⊎◌, inl, inr, refl, sym, ap, subst, ◌∙◌, Option, none, some, List,
  [], ◌∷◌, ◌++◌, length, length-append, Result, ok, err, panic, All, arith, take, drop, take-drop,
  append_assoc, nat_eq, leb, Bool-cases,
}
use locoloco.Protocol.Types.{Header, Operation}
use locoloco.Wire.{Traffic}
use locoloco.Pico.Socket.{Socket, IsSocket}
use locoloco.Pico.Receive.{
  Reasons, check_header, receive_payload, receive_behind, receive_header, receive,
}

-- The values of a u8.
abbrev pub IsByte : ℕ → Type 0
IsByte b = b < 256

All-front : (xs ys : List ℕ) → All IsByte (xs ++ ys) → All IsByte xs
All-front [] ys h = tt
All-front (x ∷ xs) ys h = (h.0, All-front xs ys h.1)

All-back : (xs ys : List ℕ) → All IsByte (xs ++ ys) → All IsByte ys
All-back [] ys h = h
All-back (x ∷ xs) ys h = All-back xs ys h.1

-- At least `n` bytes were taken off the front.
abbrev pub Takes : ℕ → (before after : List ℕ) → Type 0
Takes n before after = (front : List ℕ) × (n ≤ length front) × (before ≡ front ++ after)

Takes-append : {a b : ℕ} {xs ys zs : List ℕ} → Takes a xs ys → Takes b ys zs → Takes (a + b) xs zs
Takes-append {zs} (u, h, e) (v, h', e') =
    (u ++ v, omega (arith, length-append u v), e ∙ ap (λ l. u ++ l) e' ∙ sym (append_assoc u v zs))

pub Takes-length : {n : ℕ} {xs ys : List ℕ} → Takes n xs ys → length ys + n ≤ length xs
Takes-length {ys} (front, h, e) = omega (arith, ap length e, length-append front ys)

-- what is left of bytes is bytes
pub Takes-IsByte : {n : ℕ} {xs ys : List ℕ} → Takes n xs ys → All IsByte xs → All IsByte ys
Takes-IsByte {ys} (front, h, e) bytes = All-back front ys (subst (All IsByte) e bytes)

module _ {S : Type 0} (k : Socket S) (t : Traffic S) (lawful : IsSocket k t) where
  -- A read fails, or takes what it asked for off the front.
  abbrev pub IsRead : S → ℕ → Option (List ℕ) × S → Type 0
  IsRead s n out =
      (out.0 ≡ none)
      ⊎ ((m : List ℕ) × (out.0 ≡ some m) × (length m ≡ n) × (t.incoming s ≡ m ++ t.incoming out.1))

  pub read_exact-IsRead : (s : S) (n : ℕ) → IsRead s n (k.read_exact s n)
  read_exact-IsRead s n = elim (Bool-cases (leb n (length (t.incoming s)))) [
    | inr few ↦ inl (lawful.ends s n (ground arith))
    | inl enough ↦
        let (whole, size) = take-drop n (t.incoming s) (ground arith) in
        let (r, l, _) =
          lawful.reads s (take n (t.incoming s)) (drop n (t.incoming s)) (sym whole) in
        inr (
          take n (t.incoming s),
          subst (λ j. (k.read_exact s j).0 ≡ some (take n (t.incoming s))) size r,
          size,
          sym whole
              ∙ ap (λ l. take n (t.incoming s) ++ l)
                  (sym
                    (subst (λ j. t.incoming (k.read_exact s j).1 ≡ drop n (t.incoming s)) size l)),
        )
  ]

  module _ {E : Type 0} (reasons : Reasons E) where
    -- No panic, and a success takes at least `n` bytes.
    abbrev pub IsBounded : ℕ → S → Result E (Operation × List ℕ) × S → Type 0
    IsBounded n s out =
        (out.0 ≢ panic)
        × ((x : Operation × List ℕ) → out.0 ≡ ok x → Takes n (t.incoming s) (t.incoming out.1))

    receive_payload-IsBounded :
        (op : Operation) (n : ℕ) (s : S)
        → n < 256
        → IsBounded 0 s (receive_payload reasons k op n s)
    unfolding receive_payload
    receive_payload-IsBounded op n s h = elim (Bool-cases (nat_eq n 0)) [
      | inl empty ↦ ((λ p. ground arith), (λ x p. ([], omega arith, ground arith)))
      | inr some_left ↦ elim (read_exact-IsRead s n) [
        | inl e ↦ ((λ p. ground arith), (λ x p. absurd (ground arith)))
        | inr (m, e, size, split) ↦ ((λ p. ground arith), (λ x p. (m, omega arith, ground arith)))
      ]
    ]

    receive_behind-IsBounded :
        (r : Result E Operation) (n : ℕ) (s : S)
        → r ≢ panic
        → n < 256
        → IsBounded 0 s (receive_behind reasons k r n s)
    unfolding receive_behind
    receive_behind-IsBounded (ok op) n s h b = receive_payload-IsBounded op n s b
    receive_behind-IsBounded (err e) n s h b = ((λ p. cc), (λ x p. absurd (cc)))
    receive_behind-IsBounded panic n s h b = absurd (h refl)

    check_header-ne-panic : (h : Header) → check_header reasons h ≢ panic
    unfolding check_header
    check_header-ne-panic h = ground arith

    receive_header-IsBounded :
        (hdr : List ℕ) (s : S)
        → length hdr ≡ 3
        → All IsByte hdr
        → IsBounded 0 s (receive_header reasons k (some hdr) s)
    unfolding receive_header
    receive_header-IsBounded [] s h b = absurd (omega arith)
    receive_header-IsBounded (x ∷ []) s h b = absurd (omega arith)
    receive_header-IsBounded (x ∷ y ∷ []) s h b = absurd (omega arith)
    receive_header-IsBounded (x ∷ y ∷ z ∷ []) s h b =
        let header : Header = record { magic = x; operation = y; payload_len = z } in
        rw (lawful.header_codec.decodes header [], receive_header)
          (receive_behind-IsBounded (check_header reasons header) z s (check_header-ne-panic header)
            b.1.1.0)
    receive_header-IsBounded (x ∷ y ∷ z ∷ u ∷ rest) s h b = absurd (omega arith)

    -- If the bytes to come are bytes, the slice of the payload's buffer is in range, and a message
    -- takes at least the three bytes of its header.
    pub receive-IsBounded :
        (s : S) → All IsByte (t.incoming s) → IsBounded 3 s (receive reasons k s)
    unfolding receive
    receive-IsBounded s bytes = elim (read_exact-IsRead s 3) [
      | inl e ↦ rw (e, receive, receive_header) ((λ p. cc), (λ x p. absurd (cc)))
      | inr (m, e, size, split) ↦
          let behind = (k.read_exact s 3).1 in
          let taken : Takes 3 (t.incoming s) (t.incoming behind) = (m, omega arith, split) in
          let fits = All-front m (t.incoming behind) (subst (All IsByte) split bytes) in
          let (safe, fewer) = receive_header-IsBounded m behind size fits in
          rw (e, receive) (safe, λ x p. Takes-append taken (fewer x p))
    ]
