-- ===== src/Create/Execute/Filled.antt =====
-- backupCollectionExecute: each segment of the collection is filled in its own place, whatever the
-- order in which the segments are copied.
use milvus_backup.Base.{
  ℕ, ◌+◌, ◌<◌, ◌≤◌, ◌==◌, nat_key, List, [], ◌∷◌, ◌++◌, map, Option, none, some, ◌≡◌, refl, ◌∙◌, ap,
  sym, ok, err, if◌then◌else◌, arith, length, concat_map, All, Bool-cases, inl, inr, some-inj,
  none-ne_some, subst,
}
use milvus_backup.Base.Text.{Text}
use milvus_backup.Base.Dict.{lookup}
use milvus_backup.Proto.{CollectionBackupInfo, PartitionBackupInfo, SegmentBackupInfo}
use milvus_backup.Create.Copy.{plan_segments, plan_segments-next}
use milvus_backup.Create.Execute.{
  Placed, numbered, insert_by_size, sort_by_size, Fill, segments_of, with_segments, with_partitions,
  placed_segments, grouped, settled,
}

abbrev Nodup : Placed → Type 0
Nodup [] = Unit
Nodup ((n, _) ∷ d) = (lookup n d ≡ none) × Nodup d

lookup-insert_by_size :
    (i n : ℕ) (s : SegmentBackupInfo) (d : Placed)
    → lookup n d ≡ none
    → lookup i (insert_by_size n s d) ≡ (if n == i then some s else lookup i d)
unfolding insert_by_size lookup
lookup-insert_by_size i n s [] h = refl
lookup-insert_by_size i n s ((m, t) ∷ d) h = ground (arith, lookup-insert_by_size i n s d)

lookup-sort_by_size : (i : ℕ) (d : Placed) → Nodup d → lookup i (sort_by_size d) ≡ lookup i d
unfolding sort_by_size lookup
lookup-sort_by_size i [] h = refl
lookup-sort_by_size i ((n, s) ∷ d) (hn, hd) =
    lookup-insert_by_size i n s (sort_by_size d) (lookup-sort_by_size n d hd ∙ hn)
    ∙ ap (λ r. if n == i then some s else r) (lookup-sort_by_size i d hd)

lookup-numbered :
    (i n : ℕ) (segments : List SegmentBackupInfo) → i < n → lookup i (numbered n segments) ≡ none
unfolding numbered lookup
lookup-numbered i n [] h = refl
lookup-numbered i n (s ∷ segments) h = ground (arith, lookup-numbered i (n + 1) segments)

numbered-Nodup : (n : ℕ) (segments : List SegmentBackupInfo) → Nodup (numbered n segments)
unfolding numbered
numbered-Nodup n [] = tt
numbered-Nodup n (s ∷ segments) =
    (lookup-numbered n (n + 1) segments (omega arith), numbered-Nodup (n + 1) segments)

abbrev map_some :
    (SegmentBackupInfo → SegmentBackupInfo) → Option SegmentBackupInfo → Option SegmentBackupInfo
map_some f none = none
map_some f (some s) = some (f s)

map_some-id : (o : Option SegmentBackupInfo) → map_some (λ s. s) o ≡ o
map_some-id none = refl
map_some-id (some s) = refl

-- From the place `n` on, there are these segments.
abbrev Agrees :
    (SegmentBackupInfo → SegmentBackupInfo)
    → ℕ
    → List SegmentBackupInfo
    → (ℕ → Option SegmentBackupInfo)
    → Type 0
Agrees g n [] look = Unit
Agrees g n (s ∷ segments) look = (look n ≡ some (g s)) × Agrees g (n + 1) segments look

Agrees-ext :
    (g : SegmentBackupInfo → SegmentBackupInfo) (n : ℕ) (segments : List SegmentBackupInfo)
    (f h : ℕ → Option SegmentBackupInfo)
    → ((i : ℕ) → n ≤ i → h i ≡ f i)
    → Agrees g n segments f
    → Agrees g n segments h
Agrees-ext g n [] f h e a = tt
Agrees-ext g n (s ∷ segments) f h e (an, rest) =
    (e n (omega arith) ∙ an, Agrees-ext g (n + 1) segments f h (λ i l. e i (omega arith)) rest)

Agrees-numbered :
    (g : SegmentBackupInfo → SegmentBackupInfo) (n : ℕ) (segments : List SegmentBackupInfo)
    → Agrees g n segments (λ i. map_some g (lookup i (numbered n segments)))
unfolding numbered lookup
Agrees-numbered g n [] = tt
Agrees-numbered g n (s ∷ segments) = (
  ground arith,
  Agrees-ext g (n + 1) segments (λ i. map_some g (lookup i (numbered (n + 1) segments)))
      (λ i. map_some g (if n == i then some s else lookup i (numbered (n + 1) segments)))
      (λ i l. ground arith) (Agrees-numbered g (n + 1) segments),
)

with_segments-Agrees :
    (g : SegmentBackupInfo → SegmentBackupInfo) (n : ℕ) (segments : List SegmentBackupInfo)
    (look : ℕ → Option SegmentBackupInfo)
    → Agrees g n segments look
    → with_segments look n segments ≡ map g segments
unfolding with_segments
with_segments-Agrees g n [] look a = refl
with_segments-Agrees g n (s ∷ segments) look (an, rest) =
    rw (an, with_segments, with_segments-Agrees g (n + 1) segments look rest) refl

Agrees-split :
    (g : SegmentBackupInfo → SegmentBackupInfo) (n : ℕ) (xs ys : List SegmentBackupInfo)
    (look : ℕ → Option SegmentBackupInfo)
    → Agrees g n (xs ++ ys) look
    → Agrees g n xs look × Agrees g (n + length xs) ys look
Agrees-split g n [] ys look a = (tt, subst (λ k. Agrees g k ys look) (omega arith) a)
Agrees-split g n (x ∷ xs) ys look (an, rest) =
    let (first, later) = Agrees-split g (n + 1) xs ys look rest in
    ((an, first), subst (λ k. Agrees g k ys look) (omega arith) later)

abbrev pub in_place :
    (SegmentBackupInfo → SegmentBackupInfo) → PartitionBackupInfo → PartitionBackupInfo
in_place g p = record p { segment_backups = map g p.segment_backups }

with_partitions-Agrees :
    (g : SegmentBackupInfo → SegmentBackupInfo) (n : ℕ) (ps : List PartitionBackupInfo)
    (look : ℕ → Option SegmentBackupInfo)
    → Agrees g n (concat_map (λ p. p.segment_backups) ps) look
    → with_partitions look n ps ≡ map (in_place g) ps
unfolding with_partitions
with_partitions-Agrees g n [] look a = refl
with_partitions-Agrees g n (p ∷ ps) look a =
    let (first, later) =
      Agrees-split g n p.segment_backups (concat_map (λ p. p.segment_backups) ps) look a in
    rw
      (
        with_segments-Agrees g n p.segment_backups look first,
        with_partitions-Agrees g (n + length p.segment_backups) ps look later,
      )
      refl

module _ (root_path dst_path : Text) (fill : Fill) where
  -- A segment that is filled, with its group.
  abbrev pub filled_segment : SegmentBackupInfo → SegmentBackupInfo
  filled_segment s = elim (fill s) [ ok f ↦ grouped root_path dst_path fill f | err e ↦ s ]

  abbrev pub Fills : SegmentBackupInfo → Type 0
  Fills s = (f : SegmentBackupInfo) × (fill s ≡ ok f)

  filled_segment-ok :
      (s f : SegmentBackupInfo)
      → fill s ≡ ok f
      → filled_segment s ≡ grouped root_path dst_path fill f
  filled_segment-ok s f h = rw (h, filled_segment) refl

  settled-next :
      (n : ℕ) (s : SegmentBackupInfo) (d : Placed)
      → (plan_segments root_path dst_path fill (map (λ p. p.1) ((n, s) ∷ d))).1 ≡ none
      → (settled root_path dst_path fill ((n, s) ∷ d)
          ≡ (n, filled_segment s) ∷ settled root_path dst_path fill d)
        × Fills s
        × ((plan_segments root_path dst_path fill (map (λ p. p.1) d)).1 ≡ none)
  unfolding settled
  settled-next n s d h =
      let (f, hs, hf, hd) = plan_segments-next root_path dst_path fill s (map (λ p. p.1) d) h in
      (
        rw (hs, settled, hf)
            (ap (λ x. (n, x) ∷ settled root_path dst_path fill d) (sym (filled_segment-ok s f hs))),
        (f, hs),
        hd,
      )

  lookup-settled :
      (i : ℕ) (d : Placed)
      → (plan_segments root_path dst_path fill (map (λ p. p.1) d)).1 ≡ none
      → lookup i (settled root_path dst_path fill d) ≡ map_some filled_segment (lookup i d)
  unfolding lookup settled
  lookup-settled i [] h = refl
  lookup-settled i ((n, s) ∷ d) h =
      let (e, _, hd) = settled-next n s d h in
      ap (lookup i) e ∙ ground (arith, lookup-settled i d hd)

  Fills-lookup :
      (i : ℕ) (s : SegmentBackupInfo) (d : Placed)
      → (plan_segments root_path dst_path fill (map (λ p. p.1) d)).1 ≡ none
      → lookup i d ≡ some s
      → Fills s
  unfolding lookup
  Fills-lookup i s [] h e = absurd (none-ne_some e)
  Fills-lookup i s ((n, t) ∷ d) h e =
      let (_, ht, hd) = settled-next n t d h in
      elim (Bool-cases (n == i)) [
        | inl same ↦ subst Fills (some-inj (rw same at e)) ht
        | inr other ↦ Fills-lookup i s d hd (rw other at e)
      ]

  Fills-All :
      (n : ℕ) (segments : List SegmentBackupInfo) (look : ℕ → Option SegmentBackupInfo)
      → ((i : ℕ) (s : SegmentBackupInfo) → look i ≡ some s → Fills s)
      → Agrees (λ s. s) n segments look
      → All Fills segments
  Fills-All n [] look h a = tt
  Fills-All n (s ∷ segments) look h (an, rest) = (h n s an, Fills-All (n + 1) segments look h rest)

  -- The segments that a collection has behind a loop without an error.
  pub partitions_filled :
      (c : CollectionBackupInfo)
      → (plan_segments root_path dst_path fill (map (λ p. p.1) (placed_segments c))).1 ≡ none
      → (with_partitions
            (λ n. lookup n (settled root_path dst_path fill (placed_segments c)))
            0
            c.partition_backups
          ≡ map (in_place filled_segment) c.partition_backups)
        × All Fills (segments_of c)
  unfolding segments_of
  partitions_filled c h =
      let segments = segments_of c in
      let unsorted = numbered-Nodup 0 segments in
      (
        with_partitions-Agrees filled_segment 0 c.partition_backups _ (
            Agrees-ext filled_segment 0 segments
              (λ i. map_some filled_segment (lookup i (numbered 0 segments)))
              (λ i. lookup i (settled root_path dst_path fill (placed_segments c)))
              (λ i l.
                lookup-settled i (placed_segments c) h
                ∙ ap (map_some filled_segment)
                    (lookup-sort_by_size i (numbered 0 segments) unsorted))
              (Agrees-numbered filled_segment 0 segments)),
        Fills-All 0 segments (λ i. map_some (λ s. s) (lookup i (numbered 0 segments)))
            (λ i s e. Fills-lookup i s (placed_segments c) h (
              lookup-sort_by_size i (numbered 0 segments) unsorted
              ∙ sym (map_some-id (lookup i (numbered 0 segments)))
              ∙ e))
            (Agrees-numbered (λ s. s) 0 segments),
      )
