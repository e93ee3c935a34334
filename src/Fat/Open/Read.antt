-- ===== src/Fat/Open/Read.antt =====
-- `fat16_read` inside the first cluster of a file.
use custom_peach_os.Prelude.{
  ℕ, zero, suc, ◌+◌, ◌*◌, ◌^◌, ◌≤◌, ◌<◌, ◌≡◌, ap, ◌∙◌, some, List, ◌++◌, arith,
}
use native.Mathlib.Nat.{suc-mul, mod-eq_of_lt}
use custom_peach_os.Prelude.Int.{pos}
use custom_peach_os.Status.{all_ok}
use custom_peach_os.Streamer.{Device, slice, the_disk}
use custom_peach_os.Streamer.Read.{IsDrive, slice-append}
use custom_peach_os.Fat.Disk.{Fat}
use custom_peach_os.Fat.Clusters.{
  fat16_get_first_cluster, size_of_cluster_bytes, fat16_read_internal,
}
use custom_peach_os.Fat.Clusters.Read.{cluster_start, after, fat16_read_internal-slice}
use custom_peach_os.Fat.Directory.{item_of}
use custom_peach_os.Fat.Open.{FatFileDescriptor, read_loop, fat16_read}

one_record :
    (dev : Device) (item : List ℕ) (n offset size p q : ℕ) (f : Fat) {out rest : List ℕ}
    → offset + size < 2 ^ 32
    → fat16_read_internal dev (fat16_get_first_cluster item) offset size f
      ≡ some ((all_ok, out), after f p)
    → read_loop dev n item (offset + size) size (after f p) ≡ some ((all_ok, rest), after f q)
    → read_loop dev (suc n) item offset size f ≡ some ((all_ok, out ++ rest), after f q)
unfolding read_loop
one_record dev item n offset size p q f small now later = ground (arith, mod-eq_of_lt small)

-- A record that is left after one of them starts inside as well.
still_inside :
    (n offset size bound : ℕ)
    → offset < bound
    → offset + (n * size + size) ≤ bound
    → 1 ≤ n
    → offset + size < bound
still_inside zero offset size bound inside fits some_left = absurd (omega arith)
still_inside (suc n) offset size bound inside fits some_left = omega (arith, suc-mul n size)

glue :
    (dev : Device) (start offset size n : ℕ)
    → slice dev (start + offset) size ++ slice dev (start + (offset + size)) (n * size)
      ≡ slice dev (start + offset) (suc n * size)
glue dev start offset size n =
    ap (λ p. slice dev (start + offset) size ++ slice dev p (n * size)) (omega arith)
    ∙ slice-append dev (start + offset) size (n * size)
    ∙ ap (slice dev (start + offset)) (omega (arith, suc-mul n size))

module _ (dev : Device) (item : List ℕ) (d : IsDrive dev) where
  start_of : Fat → ℕ
  start_of f = cluster_start f (fat16_get_first_cluster item)

  read_loop-slice :
      (n offset size : ℕ) (f : Fat)
      → f.cluster_read_stream.disk ≡ the_disk
      → 2 ≤ fat16_get_first_cluster item
      → fat16_get_first_cluster item < 2 ^ 31
      → (1 ≤ n → offset < size_of_cluster_bytes f)
      → offset + n * size ≤ size_of_cluster_bytes f
      → start_of f + offset + n * size < 2 ^ 31
      → (q : ℕ) × (read_loop dev n item offset size f
          ≡ some ((all_ok, slice dev (start_of f + offset) (n * size)), after f q))
  unfolding read_loop start_of
  read_loop-slice zero offset size f e lo small inside fits low = (
    f.cluster_read_stream.position,
    ap (λ t. some ((all_ok, slice dev (start_of f + offset) t), f)) {x = 0} {y = 0 * size}
        (omega arith),
  )
  read_loop-slice (suc n) offset size f e lo small inside fits low =
      let c : ℕ = fat16_get_first_cluster item in
      let p : ℕ = start_of f + offset + size in
      let now : suc n * size ≡ n * size + size = suc-mul n size in
      let here : offset < size_of_cluster_bytes f = inside (omega arith) in
      let (q, later) =
        read_loop-slice n (offset + size) size (after f p) e lo small
          (still_inside n offset size (size_of_cluster_bytes f) here (omega (arith, now)))
          (omega (arith, now)) (omega (arith, now)) in
      (
        q,
        one_record dev item n offset size p q f (omega (arith, now))
              (fat16_read_internal-slice dev f c offset size d e lo small here (omega (arith, now))
                (omega (arith, now)))
              later
            ∙ ap (λ l. some ((all_ok, l), after f q)) (glue dev (start_of f) offset size n),
      )

  -- For a descriptor of a file whose first cluster is a data cluster, a drive that holds bytes, and
  -- a position and a length that stay inside the first cluster and below position 2^31,
  -- `fat16_read` terminates, returns the number of records that it was asked for and writes the
  -- bytes that the disk holds in that cluster from the descriptor's position on; of the state it
  -- moves the cluster stream alone.
  pub fat16_read-slice :
      (size nmemb : ℕ) (f : Fat) (desc : FatFileDescriptor)
      → desc.item.held ≡ item_of (some item)
      → f.cluster_read_stream.disk ≡ the_disk
      → 2 ≤ fat16_get_first_cluster item
      → fat16_get_first_cluster item < 2 ^ 31
      → desc.position < size_of_cluster_bytes f
      → desc.position + nmemb * size ≤ size_of_cluster_bytes f
      → cluster_start f (fat16_get_first_cluster item) + desc.position + nmemb * size < 2 ^ 31
      → (q : ℕ) × (fat16_read dev desc size nmemb f
          ≡ some (
            (
              pos nmemb,
              slice dev
                  (cluster_start f (fat16_get_first_cluster item) + desc.position)
                  (nmemb * size),
            ),
            after f q,
          ))
  unfolding fat16_read start_of
  fat16_read-slice size nmemb f desc holds e lo small inside fits low =
      let (q, done) =
        read_loop-slice nmemb desc.position size f e lo small (λ _. inside) fits low in
      (q, ground arith)
