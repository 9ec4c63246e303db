-- ===== src/Request/Output.antt =====
-- req.c, req_output: the two headers that are set last; and how the numbers in them, and in the name
-- of a request's log file, are read again.
use blahgd.Prelude.{
  ℕ, ◌+◌, ◌-◌, ◌*◌, ◌/◌, ◌%◌, ◌^◌, ◌<◌, ◌≤◌, ◌≡◌, ◌==◌, refl, sym, ap, ◌∙◌, arith, false, List, [],
  ◌∷◌, ◌++◌, if◌then◌else◌, take, drop, Bytes, codes, decimal, length, strlen, length-append,
  append_assoc, suc, zero,
}
use blahgd.Request.Numerals.{
  decimal-IsDigit, decimal-value, length-decimal, number_from, padded, padded-IsDigit, padded-value,
  length-padded, number_from-stop, number_from-end, is_digit,
}
use blahgd.Request.Log.{snprintf, stamp, file_name}

pub record Response : Type 0 where
  pub headers : List (Bytes × Bytes)
  pub body : Bytes
  pub bodylen : ℕ

abbrev pub add_header : Bytes → Bytes → Response → Response
add_header name val r = record r { headers = (name, val) ∷ r.headers }

-- snprintf into 64 bytes
abbrev pub short : Bytes → Bytes
short s = take 63 s

unfoldable pub calculate_content_length : Response → Response
calculate_content_length r =
    let n = if r.bodylen == 0 then strlen r.body else r.bodylen in
    add_header (codes "Content-Length") (short (decimal n)) (record r { bodylen = n })

-- The difference of two 64-bit times.
abbrev pub delta : ℕ → ℕ → ℕ
delta now start = (now + (2 ^ 64 - start)) % 2 ^ 64

unfoldable pub calculate_render_time : ℕ → ℕ → Response → Response
calculate_render_time now read_body_time r =
    add_header (codes "X-blahgd-render-time") (short (stamp (delta now read_body_time))) r

unfoldable pub req_output : ℕ → ℕ → Response → Response
unfolding calculate_content_length calculate_render_time
req_output now read_body_time r =
    calculate_render_time now read_body_time (calculate_content_length r)

-- The nanoseconds of a text "seconds.nanoseconds", and what follows the byte behind them.
unfoldable pub read_stamp : Bytes → ℕ × Bytes
unfolding number_from
read_stamp s =
    let (seconds, s') = number_from 0 s in
    let (nanoseconds, rest) = number_from 0 s' in (seconds * 10 ^ 9 + nanoseconds, rest)

take_all : (n : ℕ) (s : Bytes) → length s ≤ n → take n s ≡ s
take_all zero [] h = refl
take_all zero (c ∷ s) h = absurd (omega (arith, h))
take_all (suc n) [] h = refl
take_all (suc n) (c ∷ s) h = ap (◌∷◌ c) (take_all n s (omega (arith, h)))

drop-length : (s t : Bytes) → drop (length s) (s ++ t) ≡ t
drop-length [] t = refl
drop-length (c ∷ s) t = drop-length s t

-- A stamp is read as its time, at the end of a text or before a byte that is no digit.
read_stamp-end : (t : ℕ) → t < 2 ^ 64 → read_stamp (stamp t) ≡ (t, [])
unfolding read_stamp
read_stamp-end t h =
    let secs = decimal (t / 10 ^ 9) in
    let nano = padded 9 (t % 10 ^ 9) in
    rw (number_from-stop 0 secs b'.' nano (decimal-IsDigit (t / 10 ^ 9)) refl) (
      rw (number_from-end 0 nano (padded-IsDigit 9 (t % 10 ^ 9))) (
        ap (λ n. (n, []))
          (omega (
            arith,
            decimal-value (t / 10 ^ 9) (omega (arith, h)),
            padded-value 9 (t % 10 ^ 9) (omega arith),
          ))))

read_stamp-stop :
    (t c : ℕ) (rest : Bytes)
    → t < 2 ^ 64
    → is_digit c ≡ false
    → read_stamp (stamp t ++ c ∷ rest) ≡ (t, rest)
unfolding read_stamp
read_stamp-stop t c rest h k =
    let secs = decimal (t / 10 ^ 9) in
    let nano = padded 9 (t % 10 ^ 9) in
    rw (append_assoc secs (b'.' ∷ nano) (c ∷ rest)) (
      rw (number_from-stop 0 secs b'.' (nano ++ c ∷ rest) (decimal-IsDigit (t / 10 ^ 9)) refl) (
        rw (number_from-stop 0 nano c rest (padded-IsDigit 9 (t % 10 ^ 9)) k) (
          ap (λ n. (n, rest))
            (omega (
              arith,
              decimal-value (t / 10 ^ 9) (omega (arith, h)),
              padded-value 9 (t % 10 ^ 9) (omega arith),
            )))))

length-stamp : (t : ℕ) → length (stamp t) ≤ 50
length-stamp t = omega (
  arith,
  length-append (decimal (t / 10 ^ 9)) (b'.' ∷ padded 9 (t % 10 ^ 9)),
  length-decimal (t / 10 ^ 9),
  length-padded 9 (t % 10 ^ 9),
)

-- The time and the number of a request in the name of its log file.
unfoldable pub read_name : Bytes → Bytes → ℕ × ℕ
unfolding number_from
read_name data_dir s =
    let (now, rest) = read_stamp (drop (length (data_dir ++ codes "/requests/")) s) in
    (now, (number_from 0 rest).0)

-- Where the directory's name has at most 4000 bytes, the name of a request's log file tells the time,
-- of 64 bits, and the number, of 32 bits, of the request: two requests that differ in one of the two
-- have different log files.
pub read_name-file_name :
    (data_dir : Bytes) (now id : ℕ)
    → length data_dir ≤ 4000
    → now < 2 ^ 64
    → id < 2 ^ 32
    → read_name data_dir (file_name data_dir now id) ≡ (now, id)
unfolding read_name file_name
read_name-file_name data_dir now id h k j =
    let number = padded 11 id in
    let rest = stamp now ++ b'-' ∷ number in
    let dir = data_dir ++ codes "/requests/" in
    let size : length (data_dir ++ (codes "/requests/" ++ rest)) ≤ 4095 = omega (
      arith,
      length-append data_dir (codes "/requests/" ++ rest),
      length-append (stamp now) (b'-' ∷ number),
      length-stamp now,
      length-padded 11 id,
      h,
    ) in
    let whole : snprintf (data_dir ++ (codes "/requests/" ++ rest)) ≡ dir ++ rest =
      take_all 4095 _ size ∙ sym (append_assoc data_dir (codes "/requests/") rest) in
    rw whole (
      rw (drop-length dir rest) (
        rw (read_stamp-stop now b'-' number k refl) (
          ap (λ r. (now, r.0))
            (number_from-end 0 number (padded-IsDigit 11 id)
              ∙ ap (λ m. (m, [])) (padded-value 11 id (omega (arith, j)))))))

-- req_output sets the header Content-Length, to the length of the body where none has been set
-- before, and the header X-blahgd-render-time: they are read as that length, of 64 bits, and as the
-- nanoseconds, modulo 2 ^ 64, since the request's body has been read.
pub req_output-headers :
    (now start : ℕ) (r : Response)
    → (if r.bodylen == 0 then strlen r.body else r.bodylen) < 2 ^ 64
    → (len time : Bytes) × ((req_output now start r).headers
        ≡ (codes "X-blahgd-render-time", time) ∷ (codes "Content-Length", len) ∷ r.headers)
      × (number_from 0 len ≡ ((if r.bodylen == 0 then strlen r.body else r.bodylen), []))
      × (read_stamp time ≡ (delta now start, []))
unfolding req_output
req_output-headers now start r h =
    let n = if r.bodylen == 0 then strlen r.body else r.bodylen in
    let d = delta now start in
    (
      short (decimal n),
      short (stamp d),
      refl,
      rw (take_all 63 (decimal n) (omega (arith, length-decimal n))) (
          number_from-end 0 (decimal n) (decimal-IsDigit n)
          ∙ ap (λ m. (m, [])) (decimal-value n h)),
      rw (take_all 63 (stamp d) (omega (arith, length-stamp d))) (read_stamp-end d (omega arith)),
    )
