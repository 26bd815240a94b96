-- ===== src/Tests/PeerOs.antt =====
-- A system with a peer at the other end of the socket that answers at once, on which `UnixConnection` of
-- src/common/endpoint_unix.cc loses nothing.
use dafeng_wubi.Prelude.{
  ℕ, ◌+◌, ◌-◌, ◌*◌, ◌≤◌, ◌<◌, ◌==◌, true, false, [], ◌∷◌, ◌++◌, none, some, ◌≡◌, refl, ◌∙◌, arith,
  ltb, length, take, drop, Bytes, length-take, length-drop,
}
use dafeng_wubi.Endpoint.Unix.{
  Os, Polled, Transfer, remaining_ms, after_read, after_poll_in, read_round, after_write,
  after_poll_out, write_round, read_loop, write_loop, read_full_in, write_all_in,
}
use dafeng_wubi.Protocol.Frame.{encode_frame, write_frame_length}
use dafeng_wubi.Endpoint.Loop.{Progress, loop-one, loop-two}
use dafeng_wubi.Endpoint.Transfer.{Interruptions}
use dafeng_wubi.Endpoint.Ending.{
  rounds_of, read_full_ended, write_all_ended, read_full_ended-some, write_all_ended-some,
}

remaining_ms-ne_0 : (t : ℕ) → 0 < t → remaining_ms (0 + t * 1_000_000) 0 == 0 ≡ false
unfolding remaining_ms
remaining_ms-ne_0 t h = ground arith

sub_zero : (n : ℕ) → n - 0 ≡ n
sub_zero n = omega arith

pub encode_frame-pos : (body : Bytes) → 0 < length (encode_frame body)
unfolding encode_frame write_frame_length
encode_frame-pos body = ground arith

module _ {S : Type 0} (respond : Bytes → S → Bytes × S) where
  -- the bytes to come, and the peer
  abbrev pub World : Type 0
  World = Bytes × S

  -- the bytes that the peer answers to what is written
  abbrev pub answered : Bytes → World → World
  answered b w = (w.0 ++ (respond b w.1).0, (respond b w.1).1)

  abbrev pub peer_os : Os
  peer_os = record {
    World = World;
    now = λ w. (0, w);
    poll_in = λ fd t w. (Polled.ready, w);
    poll_out = λ fd t w. (Polled.ready, w);
    read = λ fd n w. (Transfer.done (take n w.0), (drop n w.0, w.1));
    write = λ fd b w. (Transfer.done (length b), answered b w);
    close = λ fd w. w;
  }

  pub peer_interruptions : Interruptions peer_os
  peer_interruptions = record {
    interruptions = λ w. 0;
    now-fewer = λ w. omega arith;
    poll_in-fewer = λ fd t w. omega arith;
    poll_out-fewer = λ fd t w. omega arith;
    read-fewer = λ fd n w. omega arith;
    write-fewer = λ fd b w. omega arith;
    write-TakesSome = λ fd b w h. h;
  }

  read_round-more :
      (fd size t : ℕ) (got : Bytes) (w : World)
      → 0 < t
      → length got < size
      → read_round peer_os fd size (0 + t * 1_000_000) got w
        ≡ after_read peer_os got
            (Transfer.done (take (size - length got) w.0), (drop (size - length got) w.0, w.1))
  unfolding read_round after_poll_in
  read_round-more fd size t got w h k =
      let more : ltb (length got) size ≡ true = ground arith in
      rw (read_round, more, remaining_ms-ne_0 t h) refl

  read_round-all :
      (fd size d : ℕ) (got : Bytes) (w : World)
      → size ≤ length got
      → read_round peer_os fd size d got w ≡ (Progress.ends (some got), w)
  unfolding read_round
  read_round-all fd size d got w h =
      let all : ltb (length got) size ≡ false = ground arith in rw (read_round, all) refl

  after_read-some :
      (got chunk : Bytes) (w : World)
      → 0 < length chunk
      → after_read peer_os got (Transfer.done chunk, w) ≡ (Progress.goes_on (got ++ chunk), w)
  unfolding after_read
  after_read-some got chunk w h = ground arith

  after_read-none :
      (got chunk : Bytes) (w : World)
      → length chunk ≡ 0
      → after_read peer_os got (Transfer.done chunk, w) ≡ (Progress.ends none, w)
  unfolding after_read
  after_read-none got chunk w h = ground arith

  write_round-first :
      (fd t : ℕ) (b : Bytes) (w : World)
      → 0 < t
      → 0 < length b
      → write_round peer_os fd b (0 + t * 1_000_000) 0 w
        ≡ (Progress.goes_on (0 + length b), answered b w)
  unfolding write_round after_poll_out after_write
  write_round-first fd t b w h k =
      let more : ltb 0 (length b) ≡ true = ground arith in
      rw (write_round, more, remaining_ms-ne_0 t h) refl

  write_round-last :
      (fd d : ℕ) (b : Bytes) (w : World)
      → write_round peer_os fd b d (0 + length b) w ≡ (Progress.ends true, w)
  unfolding write_round
  write_round-last fd d b w =
      let all : ltb (0 + length b) (length b) ≡ false = ground arith in rw (write_round, all) refl

  -- A write arrives as a whole.
  pub write_all-answered :
      (fd t : ℕ) (b : Bytes) (w : World)
      → 0 < t
      → 0 < length b
      → write_all_ended peer_os peer_interruptions b t (some fd, w)
        ≡ (true, (some fd, answered b w))
  unfolding write_all_in write_loop
  write_all-answered fd t b w h n =
      let fuel = rounds_of peer_os peer_interruptions (length b) w in
      let k = length b - 1 + peer_interruptions.interruptions w in
      write_all_ended-some peer_os peer_interruptions b t (some fd, w) (true, answered b w)
        (loop-two (write_round peer_os fd b (0 + t * 1_000_000)) fuel k 0 (0 + length b) w
          (answered b w) (true, answered b w) (omega arith) (write_round-first fd t b w h n)
          (write_round-last fd _ b (answered b w)))

  -- A read takes what is there.
  pub read_full-all :
      (fd n t : ℕ) (w : World)
      → 0 < t
      → 0 < n
      → n ≤ length w.0
      → read_full_ended peer_os peer_interruptions n t (some fd, w)
        ≡ (some (take n w.0), (some fd, (drop n w.0, w.1)))
  unfolding read_full_in read_loop
  read_full-all fd n t w h k l =
      let fuel = rounds_of peer_os peer_interruptions n w in
      let rest : World = (drop n w.0, w.1) in
      let left = n - 1 + peer_interruptions.interruptions w in
      let some_there : 0 < length (take n w.0) = omega (arith, length-take n w.0) in
      let first = read_round-more fd n t [] w h k in
      read_full_ended-some peer_os peer_interruptions n t (some fd, w) (some (take n w.0), rest)
        (loop-two (read_round peer_os fd n (0 + t * 1_000_000)) fuel left [] (take n w.0) w rest
          (some (take n w.0), rest) (omega arith)
          ((rw (sub_zero n) at first) ∙ after_read-some [] (take n w.0) rest some_there)
          (read_round-all fd n _ (take n w.0) rest (omega (arith, length-take n w.0))))

  pub read_full-nothing :
      (fd t : ℕ) (w : World)
      → read_full_ended peer_os peer_interruptions 0 t (some fd, w) ≡ (some [], (some fd, w))
  unfolding read_full_in read_loop
  read_full-nothing fd t w =
      read_full_ended-some peer_os peer_interruptions 0 t (some fd, w) (some [], w)
        (loop-one (read_round peer_os fd 0 (0 + t * 1_000_000))
          (rounds_of peer_os peer_interruptions 0 w) (peer_interruptions.interruptions w) [] w
          (some [], w) (omega arith) (read_round-all fd 0 _ [] w (omega arith)))

  pub write_all-nothing :
      (fd t : ℕ) (w : World)
      → write_all_ended peer_os peer_interruptions [] t (some fd, w) ≡ (true, (some fd, w))
  unfolding write_all_in write_loop
  write_all-nothing fd t w =
      write_all_ended-some peer_os peer_interruptions [] t (some fd, w) (true, w)
        (loop-one (write_round peer_os fd [] (0 + t * 1_000_000))
          (rounds_of peer_os peer_interruptions 0 w) (peer_interruptions.interruptions w) 0 w
          (true, w) (omega arith) (write_round-last fd _ [] w))

  -- A read of more than there is fails.
  pub read_full-short :
      (fd n t : ℕ) (w : World)
      → 0 < t
      → length w.0 < n
      → (rest : Bytes) × (read_full_ended peer_os peer_interruptions n t (some fd, w)
          ≡ (none, (some fd, (rest, w.1))))
  unfolding read_full_in read_loop
  read_full-short fd n t ([], s) h l =
      let first = read_round-more fd n t [] ([], s) h l in
      let fuel = rounds_of peer_os peer_interruptions n ([], s) in
      let nil : Bytes = [] in
      let rest = drop (n - 0) nil in
      (
        rest,
        read_full_ended-some peer_os peer_interruptions n t (some fd, ([], s)) (none, (rest, s))
            (loop-one (read_round peer_os fd n (0 + t * 1_000_000)) fuel
              (n + peer_interruptions.interruptions ([], s)) [] ([], s) (none, (rest, s))
              (omega arith)
              (first
                ∙ after_read-none [] (take (n - 0) nil) (rest, s)
                    (omega (arith, length-take (n - 0) nil)))),
      )
  read_full-short fd n t (c ∷ inc, s) h l =
      let w : World = (c ∷ inc, s) in
      let k = n - 0 in
      let got = take k (c ∷ inc) in
      let rest1 : World = (drop k (c ∷ inc), s) in
      let k2 = n - length got in
      let rest2 : World = (drop k2 rest1.0, s) in
      let len : length got ≡ length (c ∷ inc) = omega (arith, length-take k (c ∷ inc)) in
      let none_left : length (take k2 rest1.0) ≡ 0 =
        omega (arith, length-take k2 rest1.0, length-drop k (c ∷ inc)) in
      (
        rest2.0,
        read_full_ended-some peer_os peer_interruptions n t (some fd, w) (none, rest2)
            (loop-two (read_round peer_os fd n (0 + t * 1_000_000))
              (rounds_of peer_os peer_interruptions n w)
              (n - 1 + peer_interruptions.interruptions w) [] got w rest1 (none, rest2)
              (omega arith)
              (read_round-more fd n t [] w h (omega arith)
                ∙ after_read-some [] got rest1 (omega arith))
              (read_round-more fd n t got rest1 h (omega arith)
                ∙ after_read-none got (take k2 rest1.0) rest2 none_left)),
      )
