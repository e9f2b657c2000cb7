-- ===== src/Daemon/Session/Convergence.antt =====
-- Replicas that take in the same pushed clips, in whatever order, agree on the newest time and its pin.
use mathlib.Core.List.{Permᴰ}
use clipse.Prelude.{
  ℕ, ◌≡◌, refl, sym, ap, subst, ◌∙◌, Bool, true, List, [], ◌∷◌, some, arith, All, Bool-cases, inl,
  inr, ◌++◌, map,
}
use clipse.Prelude.Bytes.{Bytes}
use clipse.Core.Id.{ContentHash}
use clipse.Core.Hlc.{Hlc, later}
use clipse.Core.Clip.{Clip, hash_matches}
use clipse.Sync.Merge.{merge}
use clipse.Store.Tables.{Row, ok, err}
use clipse.Store.Queries.{find_by_hash, lookup_by_hash, into_clip}
use clipse.Daemon.Session.{
  Context, Applied, updated_clip, refused_clip, record_clip, apply_update, apply,
  update_metadata_of,
}
use clipse.Daemon.Session.History.{Taking, take_clips, count_applied, newest_after, missing_after}
use clipse.Daemon.Session.Storing.{emit_update-store}
use clipse.Daemon.Session.Newest.{newer, newest, newest-perm}
use clipse.Daemon.Session.Rows.{
  Others, IsOnly, merged, merged-older, merged-same, update-merged, lookup-only, carried,
  merged-newer, merged-pinned, merged-deleted,
}

module _ (digest : Bytes → ContentHash) (body_text : Clip → Bytes) where
  apply-merged :
      (r : Row) (before after : List Row) (now : ℕ) (c : Clip) (ctx : Context)
      → c.hash ≡ r.hash
      → hash_matches digest c ≡ true
      → ctx.store.rows ≡ before ++ r ∷ after
      → Others r.id r.hash before
      → Others r.id r.hash after
      → ((a : Applied) × ((apply digest body_text now c ctx).1 ≡ ok a))
        × ((apply digest body_text now c ctx).0.store.rows ≡ before ++ merged now c r ∷ after)
  unfolding apply merge apply_update record_clip into_clip
  apply-merged r before after now c ctx h m e o p =
      let at =
        ap (λ k. lookup_by_hash k true ctx.store) h
        ∙ (lookup-only r before after ctx.store e o p).1 in
      elim (Bool-cases (later c.hlc r.hlc)) [
        | inl newer ↦
            let done = update-merged r before after now c ctx.store e o p newer in
            let same = emit_update-store r.id c.deleted (record ctx {
              store = (update_metadata_of now r.id c.pinned c.deleted c.hlc ctx.store).0;
            }) in
            ((updated_clip, ground (arith, at, done)), ground (arith, at, done, same))
        | inr older ↦
            ((refused_clip, ground (arith, at)), ground (arith, at, e, merged-older now c r older))
      ]

module _ (digest : Bytes → ContentHash) (body_text : Clip → Bytes) (pins : Hlc → Bool) where
  -- A genuine copy of the content, with the pin that was set at its time.
  abbrev pub IsCopy : ContentHash → ℕ × Clip → Type 0
  IsCopy hash push =
      (push.1.hash ≡ hash) × (hash_matches digest push.1 ≡ true) × (push.1.pinned ≡ pins push.1.hlc)

  -- What the row has become.
  abbrev IsNewest : Row → List Clip → Row → Type 0
  IsNewest r cs r' =
      (r'.id ≡ r.id)
      × (r'.hash ≡ r.hash)
      × (r'.hlc ≡ newest r.hlc cs)
      × (r'.pinned ≡ pins r'.hlc)
      × (r.deleted ≡ true → r'.deleted ≡ true)

  take_clips-IsNewest :
      (pushes : List (ℕ × Clip)) (t : Taking) (r : Row) (before after : List Row)
      → t.ctx.store.rows ≡ before ++ r ∷ after
      → Others r.id r.hash before
      → Others r.id r.hash after
      → r.pinned ≡ pins r.hlc
      → All (IsCopy r.hash) pushes
      → ((take_clips digest body_text pushes t).1 ≡ ok tt)
        × ((r' : Row) × ((take_clips digest body_text pushes t).0.ctx.store.rows
              ≡ before ++ r' ∷ after)
            × IsNewest r (map (λ p. p.1) pushes) r')
  unfolding take_clips newest
  take_clips-IsNewest [] t r before after e o p k h = (refl, (r, e, (refl, refl, refl, k, λ d. d)))
  take_clips-IsNewest ((now, c) ∷ pushes) t r before after e o p k h =
      let ((a, answered), rows) =
        apply-merged digest body_text r before after now c t.ctx h.0.0 h.0.1 e o p in
      let r1 = merged now c r in
      let (i1, h1) = merged-same now c r in
      let t1 : Taking = record {
        ctx = (apply digest body_text now c t.ctx).0;
        outcome = count_applied a t.outcome;
        newest = newest_after c a t.newest;
        missing_blobs = missing_after c a t.missing_blobs;
      } in
      let (fine, (r', rows', (i2, h2, at, pin, dead))) =
        take_clips-IsNewest pushes t1 r1 before after rows (carried r r1 before i1 h1 o)
          (carried r r1 after i1 h1 p) (merged-pinned pins now c r h.0.2 k) (copies h1 h.1) in
      let step : take_clips digest body_text ((now, c) ∷ pushes) t
          ≡ take_clips digest body_text pushes t1 =
        ap
          (λ z. elim z [
            | err x ↦ (record t { ctx = (apply digest body_text now c t.ctx).0 }, err x)
            | ok b ↦ take_clips digest body_text pushes (record {
              ctx = (apply digest body_text now c t.ctx).0;
              outcome = count_applied b t.outcome;
              newest = newest_after c b t.newest;
              missing_blobs = missing_after c b t.missing_blobs;
            })
          ])
          answered in
      (
        ap (λ z. z.1) step ∙ fine,
        (
          r',
          ap (λ z. z.0.ctx.store.rows) step ∙ rows',
          (
            i2 ∙ i1,
            h2 ∙ h1,
            at ∙ ap (λ m. newest m (map (λ q. q.1) pushes)) (merged-newer now c r),
            pin,
            (λ d. dead (merged-deleted now c r d)),
          ),
        ),
      )
    where
      copies :
          (merged now c r).hash ≡ r.hash
          → All (IsCopy r.hash) pushes
          → All (IsCopy (merged now c r).hash) pushes
      copies e all = subst (λ hash. All (IsCopy hash) pushes) (sym e) all

  -- A replica that holds a clip as a row, alone with its id and content, and takes the same pushed copies of it
  -- in two different orders: no push fails, and the row that is found for the content afterwards has the same
  -- time either way, the newest of all, and the same pin, if no copy is forged and each time stands for
  -- one setting of the pin; and a row that was a tombstone is one still.
  pub take_clips-agree :
      (xs ys : List (ℕ × Clip)) (t : Taking) (r : Row)
      → IsOnly r t.ctx.store.rows
      → Permᴰ (map (λ p. p.1) xs) (map (λ p. p.1) ys)
      → r.pinned ≡ pins r.hlc
      → All (IsCopy r.hash) xs
      → All (IsCopy r.hash) ys
      → let a = take_clips digest body_text xs t in
        let b = take_clips digest body_text ys t in
        (a.1 ≡ ok tt)
        × (b.1 ≡ ok tt)
        × ((p : Row) × (q : Row) × (find_by_hash r.hash true a.0.ctx.store ≡ some p)
            × (find_by_hash r.hash true b.0.ctx.store ≡ some q)
            × (p.hlc ≡ newest r.hlc (map (λ z. z.1) xs))
            × (q.hlc ≡ p.hlc)
            × (q.pinned ≡ p.pinned)
            × (r.deleted ≡ true → (p.deleted ≡ true) × (q.deleted ≡ true)))
  take_clips-agree xs ys t r (before, after, e, o, o') perm k hx hy =
      let (fine, (p, rows, (ip, hp, tp, pp, dp))) =
        take_clips-IsNewest xs t r before after e o o' k hx in
      let (fine', (q, rows', (iq, hq, tq, pq, dq))) =
        take_clips-IsNewest ys t r before after e o o' k hy in
      let at : q.hlc ≡ p.hlc = tq ∙ sym (newest-perm r.hlc perm) ∙ sym tp in
      let a = (take_clips digest body_text xs t).0.ctx.store in
      let b = (take_clips digest body_text ys t).0.ctx.store in
      let found_p =
        lookup-only p before after a rows (carried r p before ip hp o)
          (carried r p after ip hp o') in
      let found_q =
        lookup-only q before after b rows' (carried r q before iq hq o)
          (carried r q after iq hq o') in
      (
        fine,
        fine',
        (
          p,
          q,
          ap (λ h. find_by_hash h true a) (sym hp) ∙ found_p.0,
          ap (λ h. find_by_hash h true b) (sym hq) ∙ found_q.0,
          tp,
          at,
          pq ∙ ap pins at ∙ sym pp,
          (λ d. (dp d, dq d)),
        ),
      )
