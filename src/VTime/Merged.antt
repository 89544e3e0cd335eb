-- ===== src/VTime/Merged.antt =====
-- The output of the synchronization: nothing is lost, and the lines are in order of time.
use mathlib.Core.List.{Perm}
use morphling.Prelude.{
  suc, ◌+◌, ◌≡◌, refl, ◌∙◌, ap, true, false, Option, List, [], ◌∷◌, ◌++◌, arith, All, map, length,
  length-append,
}
use morphling.Prelude.Int.{ℤ}
use morphling.Str.{
  Str, codes, is_empty, split, split-append, join, show, int_of-show, show-Lacks_comma,
}
use morphling.Py.{ok}
use morphling.Dict.{values}
use morphling.Sort.{sort, IsOrdered, sort-perm, sort-IsOrdered, length-sort}
use morphling.VTime.{VtEvent, ThroughputEvent}
use morphling.VTime.Sync.{
  Table, Method, earliest, latest, unknown, find_compute_start_times, calculate_offsets, baseline,
  device_offsets, synchronized,
}
use morphling.VTime.Write.{
  vtime_line, Stamped, header, stamp_all, stamped_leb, write_synchronized_log, throughput_line,
  apply_offsets, synchronize,
}
use morphling.VTime.Reading.{read_log-count}

abbrev pub stamped : ℤ → Str → Stamped
stamped t line = record { timestamp = t; is_header = false; text = line }

-- The second field of an event's line is its timestamp.
vtime_line-fields :
    (e : VtEvent)
    → (rest : Str) × (split b',' (vtime_line e)
        ≡ codes "VTIME" ∷ show e.timestamp_us ∷ split b',' rest)
unfolding vtime_line join
vtime_line-fields e = (
  _,
  split-append b',' (codes "VTIME") _ (refl, (refl, (refl, (refl, (refl, tt)))))
      ∙ ap (λ fs. codes "VTIME" ∷ fs)
          (split-append b',' (show e.timestamp_us) _ (show-Lacks_comma e.timestamp_us)),
)

stamp_all-vtime :
    (es : List VtEvent)
    → stamp_all 1 (map vtime_line es) ≡ ok (map (λ e. stamped e.timestamp_us (vtime_line e)) es)
unfolding stamp_all
stamp_all-vtime [] = refl
stamp_all-vtime (e ∷ es) =
    let (rest, fields) = vtime_line-fields e in
    rw fields (rw (int_of-show e.timestamp_us) (rw (stamp_all-vtime es) refl))

stamped_total : (a b : Stamped) → stamped_leb a b ≡ false → stamped_leb b a ≡ true
stamped_total a b h = ground arith

stamped_trans :
    (a b c : Stamped) → stamped_leb a b ≡ true → stamped_leb b c ≡ true → stamped_leb a c ≡ true
stamped_trans a b c h k = ground arith

module _ {F : Type 0} (float_of : Str → Option F) (two_digits : F → Str) where
  -- The first field of a throughput line is its timestamp.
  throughput_line-fields :
      (e : ThroughputEvent F)
      → (rest : Str) × (split b',' (throughput_line float_of two_digits e)
          ≡ show e.timestamp_us ∷ split b',' rest)
  unfolding throughput_line join
  throughput_line-fields e =
      (_, split-append b',' (show e.timestamp_us) _ (show-Lacks_comma e.timestamp_us))

  stamp_all-throughput :
      (es : List (ThroughputEvent F))
      → stamp_all 0 (map (throughput_line float_of two_digits) es)
        ≡ ok (map (λ e. stamped e.timestamp_us (throughput_line float_of two_digits e)) es)
  unfolding stamp_all
  stamp_all-throughput [] = refl
  stamp_all-throughput (e ∷ es) =
      let (rest, fields) = throughput_line-fields e in
      rw fields (rw (int_of-show e.timestamp_us) (rw (stamp_all-throughput es) refl))

  -- The headers and the events with their timestamps, as they are given.
  abbrev pub entries : List Str → List VtEvent → List (ThroughputEvent F) → List Stamped
  entries others es fs =
      map header others
      ++ map (λ e. stamped e.timestamp_us (vtime_line e)) es
      ++ map (λ e. stamped e.timestamp_us (throughput_line float_of two_digits e)) fs

  write_synchronized_log-sort :
      (others : List Str) (es : List VtEvent) (fs : List (ThroughputEvent F))
      → write_synchronized_log others
          (map vtime_line es)
          (map (throughput_line float_of two_digits) fs)
        ≡ ok (sort stamped_leb (entries others es fs))
  unfolding write_synchronized_log
  write_synchronized_log-sort others es fs =
      rw (stamp_all-vtime es) (rw (stamp_all-throughput fs) refl)

  -- Writing the lines of any events succeeds: the output is in order of timestamps, headers counting
  -- as 0, and consists of exactly the headers and the lines of the events.
  pub write_synchronized_log-IsOrdered :
      (others : List Str) (es : List VtEvent) (fs : List (ThroughputEvent F))
      → (out : List Stamped) × (write_synchronized_log others
            (map vtime_line es)
            (map (throughput_line float_of two_digits) fs)
          ≡ ok out)
        × IsOrdered stamped_leb out
        × Perm out (entries others es fs)
  write_synchronized_log-IsOrdered others es fs = (
    sort stamped_leb (entries others es fs),
    write_synchronized_log-sort others es fs,
    sort-IsOrdered stamped_leb stamped_total stamped_trans (entries others es fs),
    sort-perm stamped_leb (entries others es fs),
  )

-- `method` is one of the two that the program knows.
abbrev pub IsKnown : Method → Type 0
IsKnown earliest = Unit
IsKnown latest = Unit
IsKnown unknown = ⊥

baseline-total :
    (method : Method) (v : ℤ) (vs : List ℤ)
    → IsKnown method
    → (base : ℤ) × (baseline method v vs ≡ ok base)
unfolding baseline
baseline-total earliest v vs k = (_, refl)
baseline-total latest v vs k = (_, refl)
baseline-total unknown v vs k = elim k [ ]

calculate_offsets-total :
    (method : Method) (table : Table)
    → IsKnown method
    → (offsets : Table) × (calculate_offsets method table ≡ ok offsets)
unfolding calculate_offsets
calculate_offsets-total method [] k = ([], refl)
calculate_offsets-total method ((gemm, []) ∷ table) k = calculate_offsets-total method table k
calculate_offsets-total method ((gemm, (device, vt) ∷ times) ∷ table) k =
    let (base, based) = baseline-total method vt (values times) k in
    let (offsets, calculated) = calculate_offsets-total method table k in
    ((gemm, device_offsets base ((device, vt) ∷ times)) ∷ offsets, rw based (rw calculated refl))

length-map : {A B : Type 0} (f : A → B) (xs : List A) → length (map f xs) ≡ length xs
length-map f [] = refl
length-map f (x ∷ xs) = ap suc (length-map f xs)

module _ {F : Type 0} (float_of : Str → Option F) (two_digits : F → Str) where
  length-entries :
      (others : List Str) (es : List VtEvent) (fs : List (ThroughputEvent F))
      → length (entries float_of two_digits others es fs) ≡ length es + length fs + length others
  length-entries others es fs =
      let vtime = map (λ e. stamped e.timestamp_us (vtime_line e)) es in
      let throughput =
        map (λ e. stamped e.timestamp_us (throughput_line float_of two_digits e)) fs in
      let heads : length (map header others) ≡ length others = length-map header others in
      let first : length vtime ≡ length es = length-map _ es in
      let second : length throughput ≡ length fs = length-map _ fs in
      length-append (map header others ++ vtime) throughput
      ∙ omega (arith, length-append (map header others) vtime)

  length-synchronized :
      (es : List VtEvent) (fs : List (ThroughputEvent F)) (offsets : Table)
      → (length (synchronized es fs offsets).0 ≡ length es)
        × (length (synchronized es fs offsets).1 ≡ length fs)
  unfolding synchronized
  length-synchronized es fs offsets =
      (length-map _ _ ∙ length-map _ es, length-map _ _ ∙ length-map _ fs)

  -- A log without empty lines is synchronized by both methods, with no exception: the output has a
  -- line for each line of the log, in order of timestamps.
  pub synchronize-total :
      (method : Method) (lines : List Str)
      → IsKnown method
      → All (λ line. is_empty line ≡ false) lines
      → (out : List Stamped) × (synchronize float_of two_digits method lines ≡ ok out)
        × IsOrdered stamped_leb out
        × (length out ≡ length lines)
  unfolding synchronize apply_offsets
  synchronize-total method lines known h =
      let (log, was_read, counted) = read_log-count float_of lines h in
      let (offsets, calculated) =
        calculate_offsets-total method (find_compute_start_times log.vtime_events) known in
      let (es, fs) = synchronized log.vtime_events log.throughput_events offsets in
      let (len_e, len_f) = length-synchronized log.vtime_events log.throughput_events offsets in
      let all = entries float_of two_digits log.other_lines es fs in
      (
        sort stamped_leb all,
        rw was_read
            (rw calculated (write_synchronized_log-sort float_of two_digits log.other_lines es fs)),
        sort-IsOrdered stamped_leb stamped_total stamped_trans all,
        length-sort stamped_leb all
            ∙ omega (arith, length-entries log.other_lines es fs, len_e, len_f, counted),
      )
