-- ===== src/Daemon/Session/Wanting.antt =====
-- Which blobs a session asks for.
use clipse.Prelude.{
  ◌≡◌, Bool, true, not, ◌&&◌, List, [], ◌∷◌, ◌++◌, ◌==◌, arith, any_of, Bool-cases, inl, inr,
  if◌then◌else◌, ==_iff,
}
use clipse.Core.Id.{ContentHash}
use clipse.Daemon.Session.History.{needed_blobs}

any_of-append :
    (d x : ContentHash) (ns : List ContentHash)
    → any_of (λ n. n == d) (ns ++ x ∷ []) ≡ (if any_of (λ n. n == d) ns then true else x == d)
any_of-append d x [] = ground arith
any_of-append d x (n ∷ ns) = ground (arith, any_of-append d x ns)

-- The list that is asked for contains a digest if and only if it was in the list from the start, or
-- a clip that was taken in names it and it is not held.
pub needed_blobs-any_of :
    (has_blob : ContentHash → Bool) (d : ContentHash) (needed missing : List ContentHash)
    → any_of (λ n. n == d) (needed_blobs has_blob needed missing) ≡ (
        if any_of (λ n. n == d) needed
        then true
        else any_of (λ n. n == d) missing && not (has_blob d))
unfolding needed_blobs
needed_blobs-any_of has_blob d needed [] = ground arith
needed_blobs-any_of has_blob d needed (x ∷ missing) =
    elim (Bool-cases (not (has_blob x) && not (any_of (λ n. n == x) needed))) [
      | inl e ↦
          rw (e, needed_blobs)
            (ground (
              arith,
              needed_blobs-any_of has_blob d (needed ++ x ∷ []) missing,
              any_of-append d x needed,
              ==_iff x d,
            ))
      | inr e ↦
          rw (e, needed_blobs)
            (ground (arith, needed_blobs-any_of has_blob d needed missing, ==_iff x d))
    ]
