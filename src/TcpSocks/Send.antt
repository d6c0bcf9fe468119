-- ===== src/TcpSocks/Send.antt =====
-- tcp_send.
use mathlib.Core.List.{append_assoc, append-nil}
use common_utils_lib.Base.{
  ℕ, zero, suc, ◌+◌, ◌<◌, ◌≤◌, ◌≡◌, refl, ap, sym, ◌∙◌, ◌⊎◌, inl, inr, false, some, List, [], ◌∷◌,
  ◌++◌, arith, ltb, ◌==◌, Bool-cases, length, length-drop, take, drop,
}
use common_utils_lib.Base.Int.{ℤ, pos}
use common_utils_lib.Machine.Returns.{Returns, returns, weaken}
use common_utils_lib.IoScheduler.{minus_one}
use common_utils_lib.Sockets.{Sockets, Wire, is_invalid}
use common_utils_lib.TcpSocks.{send_loop, tcp_send}

-- What a call says that had sent `total` bytes and was asked to send `bytes`: the number of all if
-- all are sent, else −1 or 0.
abbrev pub IsReport : ℕ → List ℕ → ℕ → ℤ → Type 0
IsReport total bytes k r =
    (r ≡ pos (total + length bytes)) × (k ≡ length bytes) ⊎ ((r ≡ minus_one) ⊎ (r ≡ pos 0))

-- The first `count` of the bytes are sent behind what was sent before, and the report is true.
pub record Sent (os : Sockets) (wire : Wire os) (sockfd : ℤ) (bytes : List ℕ) (total : ℕ)
    (s : os.State) (r : ℤ) (g : os.State) : Type 0 where
  pub count : ℕ
  pub bound : count ≤ length bytes
  pub sent : wire.sent g sockfd ≡ wire.sent s sockfd ++ take count bytes
  pub report : IsReport total bytes count r

take-nil : (n : ℕ) → take {A = ℕ} n [] ≡ []
take-nil zero = refl
take-nil (suc n) = refl

take_add : (n k : ℕ) (bytes : List ℕ) → take n bytes ++ take k (drop n bytes) ≡ take (n + k) bytes
take_add zero k bytes = ap (λ m. take m bytes) (omega arith)
take_add (suc n) k [] = take-nil k ∙ sym (take-nil (suc n + k))
take_add (suc n) k (b ∷ bytes) =
    let e : suc (n + k) ≡ suc n + k = omega arith in
    ap (λ t. b ∷ t) (take_add n k bytes) ∙ ap (λ m. take m (b ∷ bytes)) e

module _ (os : Sockets) (wire : Wire os) (sockfd : ℤ) where
  -- What is reported when the system takes nothing.
  nothing-Sent :
      (bytes : List ℕ) (total : ℕ) (s g : os.State) (r : ℤ)
      → wire.sent g sockfd ≡ wire.sent s sockfd
      → IsReport total bytes 0 r
      → Sent os wire sockfd bytes total s r g
  nothing-Sent bytes total s g r kept report = record {
    count = 0;
    bound = omega arith;
    sent = kept ∙ sym (append-nil (wire.sent s sockfd));
    report = report;
  }

  -- The report about the rest, after `n` bytes.
  rest-report :
      (bytes : List ℕ) (total n k : ℕ) (r : ℤ)
      → n ≤ length bytes
      → IsReport (total + n) (drop n bytes) k r
      → IsReport total bytes (n + k) r
  rest-report bytes total n k r b (inl (e, all)) =
      inl (e ∙ ap pos (omega (arith, length-drop n bytes)), omega (arith, all, length-drop n bytes))
  rest-report bytes total n k r b (inr failed) = inr failed

  after-Sent :
      (bytes : List ℕ) (total n : ℕ) (s t g : os.State) (r : ℤ)
      → n ≤ length bytes
      → wire.sent t sockfd ≡ wire.sent s sockfd ++ take n bytes
      → Sent os wire sockfd (drop n bytes) (total + n) t r g
      → Sent os wire sockfd bytes total s r g
  after-Sent bytes total n s t g r b taken rest = record {
    count = n + rest.count;
    bound = omega (arith, rest.bound, length-drop n bytes);
    sent =
        rest.sent
        ∙ ap (λ u. u ++ take rest.count (drop n bytes)) taken
        ∙ append_assoc (wire.sent s sockfd) (take n bytes) (take rest.count (drop n bytes))
        ∙ ap (λ u. wire.sent s sockfd ++ u) (take_add n rest.count bytes);
    report = rest-report bytes total n rest.count r b rest.report;
  }

  send_loop-Sent :
      (fuel : ℕ) (bytes : List ℕ) (total : ℕ) (s : os.State)
      → length bytes < fuel
      → Returns (Sent os wire sockfd bytes total s) (send_loop os fuel sockfd bytes total s)
  unfolding send_loop
  send_loop-Sent zero bytes total s b = absurd (omega arith)
  send_loop-Sent (suc fuel) bytes total s b = elim (Bool-cases (ltb 0 (length bytes))) [
    | inr done ↦
        let all : (total ≡ total + length bytes) × (0 ≡ length bytes) = ground arith in
        rw done
          (returns (nothing-Sent bytes total s s (pos total) refl (inl (ap pos all.0, all.1))))
    | inl more ↦ elim (wire.send-takes sockfd bytes s) [
      | inl (failed, kept) ↦
          rw (more, failed)
            (returns (
              nothing-Sent bytes total s (os.send sockfd bytes s).1 minus_one kept
                (inr (inl refl))))
      | inr (n, took, bound, taken) ↦ elim (Bool-cases (n == 0)) [
        | inl none_taken ↦
            let z : n ≡ 0 = ground arith in
            let kept : wire.sent (os.send sockfd bytes s).1 sockfd ≡ wire.sent s sockfd =
              taken
              ∙ ap (λ m. wire.sent s sockfd ++ take m bytes) z
              ∙ append-nil (wire.sent s sockfd) in
            rw (more, took, none_taken)
              (returns (
                nothing-Sent bytes total s (os.send sockfd bytes s).1 (pos 0) kept
                  (inr (inr refl))))
        | inr some_taken ↦
            let positive : 0 < n = ground arith in
            let inside : ltb (length bytes) n ≡ false = ground arith in
            rw (more, took, some_taken, inside)
              (weaken
                (send_loop-Sent fuel (drop n bytes) (total + n) (os.send sockfd bytes s).1
                  (omega (arith, length-drop n bytes, positive, bound)))
                λ r g rest.
                  after-Sent bytes total n s (os.send sockfd bytes s).1 g r bound taken rest)
      ]
    ]
  ]

  -- On a system that behaves as documented, with more rounds than bytes, `tcp_send` of some bytes
  -- on a descriptor comes to an end. What it sends is a beginning of the bytes, in order and each
  -- once; it returns their number only if all of them are sent, and else −1 or 0.
  pub tcp_send-Sent :
      (fuel : ℕ) (bytes : List ℕ) (s : os.State)
      → is_invalid sockfd ≡ false
      → length bytes < fuel
      → Returns (Sent os wire sockfd bytes 0 s) (tcp_send os fuel sockfd (some bytes) s)
  unfolding tcp_send
  tcp_send-Sent fuel bytes s valid b = elim (Bool-cases (ltb 0 (length bytes))) [
    | inl more ↦ rw (valid, more) (send_loop-Sent fuel bytes 0 s b)
    | inr empty ↦
        let all : (0 ≡ 0 + length bytes) × (0 ≡ length bytes) = ground arith in
        rw (valid, empty)
          (returns (nothing-Sent bytes 0 s s (pos 0) refl (inl (ap pos all.0, all.1))))
  ]
