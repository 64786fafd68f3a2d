-- ===== src/Tracker/History.antt =====
-- The tracker of a stream over any sequence of calls.
use mathlib.Core.List.{Perm, Nodup-nil, map-append, mem-append, not-mem-nil, perm_append_comm}
use mathlib.Core.List.Perm
use mathlib.Core.List.Nodup
use mathlib.Core.Logic.Or
use pantograph_arc_vision.Common.{
  ℕ, ◌+◌, ◌-◌, ◌^◌, ◌≤◌, ◌<◌, arith, All, ◌≡◌, refl, sym, ap, ◌∙◌, Option, none, some, List, [],
  ◌∷◌, ◌++◌, map, append_assoc, length, take, drop, take-append-drop,
}
use pantograph_arc_vision.Common.Int.{ℤ, to_size}
use pantograph_arc_vision.Common.Floating.{Floating}
use pantograph_arc_vision.Severity.{Box, Track, Thresholds}
use pantograph_arc_vision.Tracker.{Tracker, update, retire, expire_old_tracks, tracker}
use pantograph_arc_vision.Tracker.Expire.{
  recent, stale, recent-live, recent-stale-perm, IsExpired, expire_old_tracks-IsExpired,
}
use pantograph_arc_vision.Tracker.Report.{update_total}
use pantograph_arc_vision.Tracker.Lookup.{FindsAll, IsTracked-FindsAll}
use pantograph_arc_vision.Tracker.Ids.{
  ids, all_ids, IsTracked, ids-retire, update-IsTracked, update-next,
}

append_swap {ℓ} : {A : Type ℓ} (xs ys zs : List A) → Perm (xs ++ (ys ++ zs)) (ys ++ (xs ++ zs))
append_swap xs ys zs =
    rw (← append_assoc, ← append_assoc) (Perm.append_right zs (perm_append_comm xs ys))

module _ {ℓ} {D : Type ℓ} where
  ids-append : (ts us : List (Track D)) → ids (ts ++ us) ≡ ids ts ++ ids us
  ids-append = map-append (λ t. t.track_id)

  ids_expired :
      (k : Tracker D) (now : ℤ)
      → let ended = k.completed_tracks ++ map retire (stale k.max_gap_ns now k.active_tracks) in
        Perm (ids (recent k.max_gap_ns now k.active_tracks) ++ ids ended) (all_ids k)
  ids_expired k now =
      let r = recent k.max_gap_ns now k.active_tracks in
      let s = stale k.max_gap_ns now k.active_tracks in
      rw (ids-append k.completed_tracks (map retire s), ids-retire s)
        (Perm.trans (Perm.append_left (ids r) (perm_append_comm (ids k.completed_tracks) (ids s))) (
          rw (← append_assoc, ← ids-append r s)
            (Perm.append_right (ids k.completed_tracks)
              (Perm.map (λ t. t.track_id) (recent-stale-perm k.max_gap_ns now k.active_tracks)))))

  -- What is trimmed, beside the identifiers that stay.
  ids_trimmed :
      (k : Tracker D) (now : ℤ) (k' : Tracker D)
      → IsExpired k now k'
      → let ended = k.completed_tracks ++ map retire (stale k.max_gap_ns now k.active_tracks) in
        let cut = take (length ended - to_size k.max_tracks) ended in
        Perm (ids cut ++ all_ids k') (all_ids k)
  ids_trimmed k now k' x =
      let ended = k.completed_tracks ++ map retire (stale k.max_gap_ns now k.active_tracks) in
      let n = length ended - to_size k.max_tracks in
      let r = recent k.max_gap_ns now k.active_tracks in
      let whole_list : ids (take n ended) ++ ids (drop n ended) ≡ ids ended =
        sym (ids-append (take n ended) (drop n ended)) ∙ ap ids (take-append-drop n ended) in
      rw (x.stay, x.completed)
        (Perm.trans (append_swap (ids (take n ended)) (ids r) (ids (drop n ended)))
          (rw whole_list (ids_expired k now)))

  next-expire :
      (k : Tracker D) (now : ℤ) → (expire_old_tracks k now).next_track_id ≡ k.next_track_id
  unfolding expire_old_tracks
  next-expire k now = refl

  -- Expiry keeps the identifiers of all tracks apart.
  pub expire_old_tracks-IsTracked :
      (k : Tracker D) (now : ℤ) → IsTracked k → IsTracked (expire_old_tracks k now)
  expire_old_tracks-IsTracked k now v =
      let x = expire_old_tracks-IsExpired k now v.live in
      let order = ids_trimmed k now (expire_old_tracks k now) x in
      record {
        below = λ a m.
            rw (next-expire k now) (v.below a (Perm.subset order a (mem-append.1 (Or.inr m))));
        distinct = Nodup.of_append_right _ (Perm.nodup (Perm.symm order) v.distinct);
        live = rw x.stay (recent-live k.max_gap_ns now k.active_tracks v.live);
      }

-- The calls of the detector on the tracker of a stream: a frame's detections, and the expiry.
pub data Call {ℓ} (D : Type ℓ) : Type ℓ where
  frame : ℤ → List (Box D) → List D → Call D
  expiry : ℤ → Call D

module _ {ℓ} {D : Type ℓ} ⦃d : Floating D⦄ where
  pub history : Tracker D → List (Call D) → Option (Tracker D)
  history k [] = some k
  history k (frame pts boxes energies ∷ cs) = elim (update k pts boxes energies) [
    | none ↦ none
    | some (us, k') ↦ history k' cs
  ]
  history k (expiry now ∷ cs) = history (expire_old_tracks k now) cs

  -- Each frame brings an energy for every detection.
  abbrev pub IsServed : Call D → Type 0
  IsServed (frame pts boxes energies) = length boxes ≤ length energies
  IsServed (expiry now) = Unit

  -- The number of the detections in all frames.
  abbrev pub detections : List (Call D) → ℕ
  detections [] = 0
  detections (frame pts boxes energies ∷ cs) = length boxes + detections cs
  detections (expiry now ∷ cs) = detections cs

  history-IsTracked :
      (k : Tracker D) (cs : List (Call D))
      → All IsServed cs
      → IsTracked k
      → (k' : Tracker D) × (history k cs ≡ some k')
        × IsTracked k'
        × (k'.next_track_id ≤ k.next_track_id + detections cs)
  unfolding history
  history-IsTracked k [] served v = (k, refl, v, omega arith)
  history-IsTracked k (expiry now ∷ cs) (s, served) v =
      let (k', e, v', few) =
        history-IsTracked (expire_old_tracks k now) cs served
          (expire_old_tracks-IsTracked k now v) in
      (k', e, v', omega (arith, few, next-expire k now))
  history-IsTracked k (frame pts boxes energies ∷ cs) (s, served) v =
      let (us, k1, here) = update_total k pts boxes energies s in
      let (k', e, v', few) =
        history-IsTracked k1 cs served (update-IsTracked k pts boxes energies v here) in
      (k', rw (here, history) e, v', omega (arith, few, update-next k pts boxes energies here))

  pub new-IsTracked :
      (th : Thresholds D) (iou : D) (gap max_tracks : ℤ) → IsTracked (tracker th iou gap max_tracks)
  unfolding tracker
  new-IsTracked th iou gap max_tracks = record {
    below = λ a m. absurd (not-mem-nil m);
    distinct = Nodup-nil;
    live = tt;
  }

  next-tracker :
      (th : Thresholds D) (iou : D) (gap max_tracks : ℤ)
      → (tracker th iou gap max_tracks).next_track_id ≡ 1
  unfolding tracker
  next-tracker th iou gap max_tracks = refl

  -- Any sequence of frames and expiries of a new tracker runs to its end, if each frame brings an
  -- energy for every detection and the detections of all frames are fewer than 2 ^ 31 - 1. Then
  -- `next_track_id_` stays within its `int32_t`, and after the sequence the identifiers of all tracks, active and completed, are
  -- distinct and below `next_track_id_`, every track of `active_tracks_` is marked active, and `get_track`
  -- leads from the identifier of each track to this track, and from `next_track_id_` to none.
  pub tracker-IsTracked :
      (th : Thresholds D) (iou : D) (gap max_tracks : ℤ) (cs : List (Call D))
      → All IsServed cs
      → detections cs + 1 < 2 ^ 31
      → (k' : Tracker D) × (history (tracker th iou gap max_tracks) cs ≡ some k')
        × (k'.next_track_id < 2 ^ 31)
        × IsTracked k'
        × FindsAll k'
  tracker-IsTracked th iou gap max_tracks cs served fewer =
      let (k', e, v, few) =
        history-IsTracked (tracker th iou gap max_tracks) cs served
          (new-IsTracked th iou gap max_tracks) in
      (
        k',
        e,
        omega (arith, few, fewer, next-tracker th iou gap max_tracks),
        v,
        IsTracked-FindsAll k' v,
      )
