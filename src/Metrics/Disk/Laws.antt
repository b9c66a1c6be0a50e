-- ===== src/Metrics/Disk/Laws.antt =====
-- metrics/disk.rs: the arithmetic of a mount's usage, the sums of the counters, and the readings that
-- the rates compare.
use vigil_collector.Prelude.{
  ℕ, ◌+◌, ◌-◌, ◌*◌, ◌%◌, ◌^◌, ◌≤◌, ◌<◌, min, ◌≡◌, refl, ap, ◌∙◌, Bool, true, false, not, ◌&&◌,
  Option, none, some, List, [], ◌∷◌, ◌++◌, arith, ltb, leb, if◌then◌else◌, length, All,
}
use vigil_collector.Float.{Float}
use vigil_collector.Text.{Text, words_from, split_whitespace}
use vigil_collector.Text.Number.{max_u64, saturating_add, saturating_mul}
use vigil_collector.Snapshot.{DiskIo, no_io}
use vigil_collector.Metrics.Rate.{rate}
use vigil_collector.Metrics.Disk.Usage.{StatVfs, Usage, percent_of, statvfs_usage}
use vigil_collector.Metrics.Disk.Partitions.{contains_name}
use vigil_collector.Metrics.Disk.Counters.{
  no_stats, DiskStats, DiskTotals, DiskIoPrev, field_at, field_number, add_line, add_lines,
  io_since, io_rates, collect_io,
}

abbrev pub cap : ℕ → ℕ
cap n = min n max_u64

pub saturating_add-cap : (a b : ℕ) → saturating_add (cap a) b ≡ cap (a + b)
unfolding saturating_add
saturating_add-cap a b = ground arith

-- A line of /proc/diskstats that counts: it has 14 fields, and its device is a whole disk.
abbrev pub is_counted : List Text → List Text → Bool
is_counted allowed fs = leb 14 (length fs) && contains_name allowed (field_at fs 2)

-- The exact sum of one column over the lines that count.
unfoldable pub column_sum : List Text → ℕ → List Text → ℕ
unfolding words_from
column_sum allowed i [] = 0
column_sum allowed i (line ∷ more) =
    let fs = split_whitespace line in
    (if is_counted allowed fs then field_number fs i else 0) + column_sum allowed i more

abbrev capped : ℕ → ℕ → ℕ → ℕ → DiskStats
capped a b c d = record {
  read_ops = cap a;
  read_sectors = cap b;
  write_ops = cap c;
  write_sectors = cap d;
}

abbrev counted : List Text → List Text → ℕ → ℕ
counted allowed fs i = if is_counted allowed fs then field_number fs i else 0

leb-eq-not-ltb : (n : ℕ) → leb 14 n ≡ not (ltb n 14)
leb-eq-not-ltb n = ground arith

add_line-capped :
    (allowed fs : List Text) (a b c d : ℕ)
    → add_line allowed (capped a b c d) fs
      ≡ capped
          (a + counted allowed fs 3)
          (b + counted allowed fs 5)
          (c + counted allowed fs 7)
          (d + counted allowed fs 9)
unfolding add_line
add_line-capped allowed fs a b c d =
    rw (leb-eq-not-ltb (length fs))
      (cases (ltb (length fs) 14) (contains_name allowed (field_at fs 2)))
  where
    cases :
        (short whole : Bool)
        → let n : ℕ → ℕ = λ i. if not short && whole then field_number fs i else 0 in
          (if short then capped a b c d else if not whole then capped a b c d else record {
            read_ops = saturating_add (cap a) (field_number fs 3);
            read_sectors = saturating_add (cap b) (field_number fs 5);
            write_ops = saturating_add (cap c) (field_number fs 7);
            write_sectors = saturating_add (cap d) (field_number fs 9);
          })
          ≡ capped (a + n 3) (b + n 5) (c + n 7) (d + n 9)
    cases true whole = ground arith
    cases false false = ground arith
    cases false true = λ i. record {
      read_ops = saturating_add-cap a (field_number fs 3) i;
      read_sectors = saturating_add-cap b (field_number fs 5) i;
      write_ops = saturating_add-cap c (field_number fs 7) i;
      write_sectors = saturating_add-cap d (field_number fs 9) i;
    }

add_lines-capped :
    (allowed ls : List Text) (a b c d : ℕ)
    → add_lines allowed (capped a b c d) ls
      ≡ capped
          (a + column_sum allowed 3 ls)
          (b + column_sum allowed 5 ls)
          (c + column_sum allowed 7 ls)
          (d + column_sum allowed 9 ls)
unfolding add_lines column_sum
add_lines-capped allowed [] a b c d = ground arith
add_lines-capped allowed (line ∷ more) a b c d =
    let fs = split_whitespace line in
    ap (λ s. add_lines allowed s more) (add_line-capped allowed fs a b c d)
    ∙ add_lines-capped allowed more (a + counted allowed fs 3) (b + counted allowed fs 5)
        (c + counted allowed fs 7) (d + counted allowed fs 9)
    ∙ regroup (counted allowed fs 3) (counted allowed fs 5) (counted allowed fs 7)
        (counted allowed fs 9)
  where
    regroup :
        (p q r s : ℕ)
        → capped
            (a + p + column_sum allowed 3 more)
            (b + q + column_sum allowed 5 more)
            (c + r + column_sum allowed 7 more)
            (d + s + column_sum allowed 9 more)
          ≡ capped
              (a + (p + column_sum allowed 3 more))
              (b + (q + column_sum allowed 5 more))
              (c + (r + column_sum allowed 7 more))
              (d + (s + column_sum allowed 9 more))
    regroup p q r s = ground arith

-- The loop over /proc/diskstats gives, for each of its four columns, the exact sum over the lines
-- with at least 14 fields whose device is a whole disk, cut off at the largest `u64`.
pub add_lines-eq-sums :
    (allowed ls : List Text)
    → add_lines allowed no_stats ls ≡ record {
      read_ops = cap (column_sum allowed 3 ls);
      read_sectors = cap (column_sum allowed 5 ls);
      write_ops = cap (column_sum allowed 7 ls);
      write_sectors = cap (column_sum allowed 9 ls);
    }
add_lines-eq-sums allowed ls = add_lines-capped allowed ls 0 0 0 0 ∙ ground arith

-- A filesystem as the kernel reports it: no more blocks free than there are, none more available than
-- free, and its size in bytes is a `u64`.
pub record IsSane (st : StatVfs) : Type 0 where
  pub bfree_le : st.f_bfree ≤ st.f_blocks
  pub bavail_le : st.f_bavail ≤ st.f_bfree
  pub size_lt : st.f_blocks * st.f_frsize < 2 ^ 64

saturating_mul_lem : (a b : ℕ) → a * b < 2 ^ 64 → saturating_mul a b ≡ a * b
unfolding saturating_mul
saturating_mul_lem a b h = ground arith

split_blocks : (a b : ℕ) → a ≤ b → b ≡ b - a + a
split_blocks a b h = omega arith

module _ {F : Type 0} ⦃f : Float F⦄ where
  -- For a sane filesystem nothing saturates or wraps around: the bytes used and the bytes free add up
  -- to the total less the reserved blocks, and the percentage is taken of just that sum.
  pub statvfs_usage_exact :
      (st : StatVfs)
      → IsSane st
      → (u : Usage F) × (statvfs_usage (some st) ≡ some u)
        × (u.total ≡ st.f_blocks * st.f_frsize)
        × (u.used + st.f_bfree * st.f_frsize ≡ u.total)
        × (u.used + u.free + (st.f_bfree - st.f_bavail) * st.f_frsize ≡ u.total)
        × (u.percent ≡ percent_of u.used (u.used + u.free))
  unfolding statvfs_usage
  statvfs_usage_exact st sane =
      let whole = ap (λ t. t * fr) (split_blocks bf bl sane.bfree_le) in
      let spare = ap (λ t. t * fr) (split_blocks av bf sane.bavail_le) in
      let total_eq = saturating_mul_lem bl fr sane.size_lt in
      let used_eq = saturating_mul_lem (bl - bf) fr (omega arith) in
      let free_eq = saturating_mul_lem av fr (omega arith) in
      let fits : (saturating_mul (bl - bf) fr + saturating_mul av fr) % 2 ^ 64
          ≡ saturating_mul (bl - bf) fr + saturating_mul av fr =
        omega arith in
      (
        _,
        refl,
        total_eq,
        omega arith,
        omega arith,
        ap (percent_of (saturating_mul (bl - bf) fr)) fits,
      )
    where
      fr : ℕ
      fr = st.f_frsize

      bl : ℕ
      bl = st.f_blocks

      bf : ℕ
      bf = st.f_bfree

      av : ℕ
      av = st.f_bavail

-- A history of readings of /proc/diskstats, each with its time; `none` is a failed one.
abbrev Reading : Type 0
Reading = Option DiskTotals × ℕ

abbrev pub IsFailed : Reading → Type 0
IsFailed r = r.0 ≡ none

-- The growth of a counter for each second, to the nearest whole number; a counter that was reset has not
-- grown.
abbrev pub per_second : {F : Type 0} ⦃f : Float F⦄ → ℕ → ℕ → F → ℕ
per_second ⦃f⦄ new old elapsed = f.to_u64 (f.round (f.div (f.of_u64 (new - old)) elapsed))

-- The rates between two readings.
abbrev pub between : {F : Type 0} ⦃f : Float F⦄ → DiskTotals → DiskTotals → F → DiskIo
between new old elapsed = record {
  read_bytes_per_sec = per_second new.read_bytes old.read_bytes elapsed;
  write_bytes_per_sec = per_second new.write_bytes old.write_bytes elapsed;
  read_iops = per_second new.read_ops old.read_ops elapsed;
  write_iops = per_second new.write_ops old.write_ops elapsed;
}

module _ {F : Type 0} ⦃f : Float F⦄ (secs : ℕ → ℕ → F) where
  -- What `prev` holds after the history.
  unfoldable pub prev_after : List Reading → Option DiskIoPrev → Option DiskIoPrev
  unfolding collect_io
  prev_after [] prev = prev
  prev_after ((r, now) ∷ rs) prev = prev_after rs (collect_io secs r now prev).1

  prev_after-failed :
      (fails : List Reading) (prev : Option DiskIoPrev)
      → All IsFailed fails
      → prev_after fails prev ≡ prev
  unfolding prev_after collect_io
  prev_after-failed [] prev h = refl
  prev_after-failed ((none, now) ∷ rs) prev (e, h) = prev_after-failed rs prev h
  prev_after-failed ((some t, now) ∷ rs) prev (e, h) = absurd (cc)

  prev_after-newest :
      (before : List Reading) (old : DiskTotals) (at : ℕ) (fails : List Reading)
      (prev : Option DiskIoPrev)
      → All IsFailed fails
      → prev_after (before ++ ((some old, at) ∷ fails)) prev
        ≡ some (record { at = at; totals = old })
  unfolding prev_after collect_io
  prev_after-newest [] old at fails prev h = prev_after-failed fails _ h
  prev_after-newest ((r, now) ∷ rs) old at fails prev h = prev_after-newest rs old at fails _ h

  -- Over any history of readings the rates of a new reading are the growth of its counters since the
  -- newest reading before it that did not fail, over the time since then, and 0 if that time is not above
  -- 0; failed readings in between change nothing. With no such reading, and for a failed one, they are 0.
  pub collect_io_history :
      (before : List Reading) (old : DiskTotals) (at : ℕ) (fails : List Reading) (now : ℕ)
      (new : DiskTotals)
      → All IsFailed fails
      → let history = before ++ ((some old, at) ∷ fails) in
        ((collect_io secs (some new) now (prev_after history none)).0
          ≡ (if f.le (secs at now) (f.lit 0 0) then no_io else between new old (secs at now)))
        × ((collect_io secs (some new) now (prev_after fails none)).0 ≡ no_io)
        × ((collect_io secs none now (prev_after history none)).0 ≡ no_io)
  unfolding collect_io io_since io_rates rate
  collect_io_history before old at fails now new h = (
    ap (io_since secs now new) (prev_after-newest before old at fails none h),
    ap (io_since secs now new) (prev_after-failed fails none h),
    refl,
  )
