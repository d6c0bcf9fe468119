-- ===== src/TcpSocks/Removal.antt =====
-- Taking a connection out of the list of the pending ones.
use mathlib.Core.Path.{subst}
use common_utils_lib.Base.{
  ℕ, zero, suc, ◌<◌, ◌≡◌, refl, ap, sym, ◌∙◌, ◌≢◌, false, some, List, [], ◌∷◌, ◌++◌, arith, ◌==◌,
  ==-ne, ==_refl, length, length-append,
}
use common_utils_lib.Machine.{Ptr, null, ok}
use common_utils_lib.Machine.Returns.{Returns, returns}
use common_utils_lib.Chain.{
  put, first, IsDistinct, IsLinked, IsLinked-at, has-append, has-middle, first-append, put_self,
  put_ne, has-ne,
}
use common_utils_lib.Chain.Splice.{IsLinked-remove, IsDistinct-remove}
use common_utils_lib.Chain.Walk.{append_after, split_last}
use common_utils_lib.Slist.Shape.{load-ok, store-ok}
use common_utils_lib.Sockets.{Sockets}
use common_utils_lib.TcpSocks.Pending.{World, conn_of, remove_loop, remove_pending}

module _ (os : Sockets) where
  -- The pending connections, in order.
  pub record IsPending (w : World os) (xs : List Ptr) : Type 0 where
    pub start : w.pending ≡ first xs null
    pub linked : IsLinked w.next xs null
    pub distinct : IsDistinct xs

  pub conn_of-ok :
      (w : World os) (p q : Ptr) → p ≢ null → w.next p ≡ some q → conn_of os p w ≡ ok (w.conns p) w
  unfolding conn_of
  conn_of-ok w p q ne e = rw (load-ok w.next p q ne e)

  -- The loop stops at the connection `p` in front of the one that is done.
  remove_loop-found :
      (fuel : ℕ) (w : World os) (front : List Ptr) (p done : Ptr) (back : List Ptr)
      → IsLinked w.next (front ++ p ∷ done ∷ back) null
      → IsDistinct (front ++ p ∷ done ∷ back)
      → length front < fuel
      → remove_loop os fuel done (first (front ++ p ∷ []) null) w
        ≡ ok done (record w { next = put w.next p (first back null) })
  unfolding remove_loop
  remove_loop-found zero w front p done back l d b = absurd (omega arith)
  remove_loop-found (suc fuel) w [] p done back l d b = rw (
    ==-ne p null l.0,
    load-ok w.next p done l.0 l.1,
    ==_refl done,
    load-ok w.next done (first back null) l.2.0 l.2.1,
    store-ok w.next p done l.0 l.1 (first back null),
  )
  remove_loop-found (suc fuel) w (x ∷ front) p done back l d b =
      let q = first (front ++ p ∷ []) null in
      let next_x : w.next x ≡ some q = l.1 ∙ ap some (first-append front p (done ∷ back) [] null) in
      let other : (q == done) ≡ false = not_done front p done back d.1 in
      rw (==-ne x null l.0, load-ok w.next x q l.0 next_x, other)
        (remove_loop-found fuel w front p done back l.2 d.1 (omega arith))
    where
      not_done :
          (front : List Ptr) (p done : Ptr) (back : List Ptr)
          → IsDistinct (front ++ p ∷ done ∷ back)
          → (first (front ++ p ∷ []) null == done) ≡ false
      not_done [] p done back d = ground (arith, d.0)
      not_done (y ∷ front) p done back d = ground (arith, d.0, has-append y front (p ∷ done ∷ back))

  -- The list without the connection; the members of the connections, what has been called, the
  -- sockets and the scheduler are as they were, and so is the connection's own `next`.
  pub record Removed (w g : World os) (done : Ptr) (xs : List Ptr) (old : Ptr) : Type 0 where
    pub list : IsPending g xs
    pub kept : g ≡ record w { pending = g.pending; next = g.next }
    pub own : g.next done ≡ some old

  pub remove_pending-Removed :
      (fuel : ℕ) (w : World os) (front : List Ptr) (done : Ptr) (back : List Ptr)
      → IsPending w (front ++ done ∷ back)
      → length front < fuel
      → Returns
          (λ p g. (p ≡ done) × Removed w g done (front ++ back) (first back null))
          (remove_pending os fuel done w)
  unfolding remove_pending
  remove_pending-Removed fuel w [] done back is b =
      rw
        (
          is.start,
          ==_refl done,
          load-ok w.next done (first back null) is.linked.0 is.linked.1,
          ==-ne done null is.linked.0,
        )
        (returns (
          refl,
          record {
            list = record { start = refl; linked = is.linked.2; distinct = is.distinct.1 };
            kept = refl;
            own = is.linked.1;
          },
        ))
  remove_pending-Removed fuel w (x ∷ front) done back is b =
      let (fs, p, last) = split_last x front in
      let rest : (ys : List Ptr) → x ∷ (front ++ ys) ≡ fs ++ p ∷ ys =
        λ ys. sym (append_after fs p (x ∷ front) ys (sym last)) in
      let l : IsLinked w.next (fs ++ p ∷ done ∷ back) null =
        subst (λ t. IsLinked w.next t null) (rest (done ∷ back)) is.linked in
      let d : IsDistinct (fs ++ p ∷ done ∷ back) =
        subst IsDistinct (rest (done ∷ back)) is.distinct in
      let start : x ≡ first (fs ++ p ∷ []) null = ap (λ t. first t null) last in
      let at = IsLinked-at w.next fs p (done ∷ back) null l in
      let not_p : p ≢ done =
        has-ne p done (fs ++ p ∷ back) (has-middle fs p back)
          (IsDistinct-remove fs p done back d).1 in
      let long : length fs < fuel = omega (arith, b, ap length last, length-append fs (p ∷ [])) in
      let not_first : (x == done) ≡ false =
        ground (arith, is.distinct.0, has-append x front (done ∷ back)) in
      let other : (w.pending == done) ≡ false = ap (λ t. t == done) is.start ∙ not_first in
      let found : remove_loop os fuel done w.pending w
          ≡ ok done (record w { next = put w.next p (first back null) }) =
        ap (λ t. remove_loop os fuel done t w) (is.start ∙ start)
        ∙ remove_loop-found fuel w fs p done back l d long in
      rw (other, found, ==-ne done null at.2.0)
        (returns (
          refl,
          record {
            list = record {
              start = is.start;
              linked =
                  subst (λ t. IsLinked (put w.next p (first back null)) t null) (sym (rest back))
                    (IsLinked-remove fs p done back null l d (record {
                      before = put_self w.next p (first back null);
                      rest = λ a o. ground arith;
                    }));
              distinct = subst IsDistinct (sym (rest back)) (IsDistinct-remove fs p done back d).0;
            };
            kept = refl;
            own = put_ne w.next p (first back null) done (λ e. not_p (sym e)) ∙ at.2.1;
          },
        ))
