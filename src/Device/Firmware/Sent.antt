-- ===== src/Device/Firmware/Sent.antt =====
-- What a device gets of its firmware.
use asl.Base.{
  ℕ, zero, suc, ◌+◌, ◌-◌, ◌<◌, ◌≡◌, refl, sym, ap, ◌∙◌, true, Option, some, List, [], ◌∷◌, ◌++◌,
  append-nil, append_assoc, map, arith, length, take, All,
}
use asl.Base.Text.{Bytes, codes}
use asl.Device.Firmware.{write_buf, copy_turns, load_firmware}

abbrev pub sum : List ℕ → ℕ
sum [] = 0
sum (n ∷ ns) = n + sum ns

-- The firsts of the chunk, one for each number.
abbrev pub firsts : Bytes → List ℕ → Bytes
firsts chunk [] = []
firsts chunk (n ∷ ns) = take n chunk ++ firsts chunk ns

-- A chunk that is read, and the numbers of bytes that the writes of it take.
abbrev pub Part : Type 0
Part = Bytes × List ℕ

abbrev pub IsPart : Part → Type 0
IsPart (chunk, counts) = (0 < length chunk) × All (λ n. 0 < n) counts × (sum counts ≡ length chunk)

abbrev pub total : List Part → ℕ
total [] = 0
total ((chunk, counts) ∷ parts) = length chunk + total parts

abbrev pub reads : List Part → List (Option Bytes)
reads [] = []
reads ((chunk, counts) ∷ parts) = some chunk ∷ reads parts

abbrev pub writes : List Part → List (Option ℕ)
writes [] = []
writes ((chunk, counts) ∷ parts) = map some counts ++ writes parts

abbrev pub sent_of : List Part → Bytes
sent_of [] = []
sent_of ((chunk, counts) ∷ parts) = firsts chunk counts ++ sent_of parts

write_buf-firsts :
    (nr : ℕ) (buf : Bytes) (counts : List ℕ) (more : List (Option ℕ)) (sent : Bytes)
    → All (λ n. 0 < n) counts
    → sum counts ≡ nr
    → write_buf nr buf (map some counts ++ more) sent ≡ some (more, sent ++ firsts buf counts, true)
unfolding write_buf
write_buf-firsts zero buf [] more sent a e = ap (λ l. some (more, l, true)) (sym (append-nil sent))
write_buf-firsts (suc nr) buf [] more sent a e = absurd (omega (arith, e))
write_buf-firsts nr buf (zero ∷ counts) more sent a e = absurd (omega (arith, a.0))
write_buf-firsts zero buf (suc n ∷ counts) more sent a e = absurd (omega (arith, e))
write_buf-firsts (suc nr) buf (suc n ∷ counts) more sent a e =
    write_buf-firsts (nr - n) buf counts more (sent ++ take (suc n) buf) a.1 (omega (arith, e))
    ∙ ap (λ l. some (more, l, true)) (append_assoc sent (take (suc n) buf) (firsts buf counts))

copy_turns-parts :
    (parts : List Part) (sent : Bytes)
    → All IsPart parts
    → copy_turns (total parts) (reads parts) (writes parts) sent
      ≡ some (sent ++ sent_of parts, true)
unfolding copy_turns
copy_turns-parts [] sent h = ap (λ l. some (l, true)) (sym (append-nil sent))
copy_turns-parts (([], counts) ∷ parts) sent h = absurd (omega (arith, h.0.0))
copy_turns-parts ((c ∷ cs, counts) ∷ parts) sent ((long, positive, all), h) =
    let left : length cs + total parts - length cs ≡ total parts = omega arith in
    let grown : suc (length cs) + total parts ≡ suc (length cs + total parts) = omega arith in
    rw
      (
        grown,
        copy_turns,
        write_buf-firsts (suc (length cs)) (c ∷ cs) counts (writes parts) sent positive all,
        left,
      )
      (copy_turns-parts parts (sent ++ firsts (c ∷ cs) counts) h
        ∙ ap (λ l. some (l, true)) (append_assoc sent (firsts (c ∷ cs) counts) (sent_of parts)))

-- If the file is read in chunks that make up its size, and the writes of each chunk take all of it,
-- each at least a byte, then the transfer is started and reported as successful, and the device gets,
-- for each write, as many bytes from the start of the chunk as it takes: the file itself if every
-- chunk is taken at once, and otherwise bytes of the chunk's start again in place of its end.
pub load_firmware-parts :
    (parts : List Part)
    → All IsPart parts
    → load_firmware (some (total parts)) (reads parts) (writes parts)
      ≡ some (record { loading = codes "1" ∷ codes "0" ∷ []; sent = sent_of parts; ret = true })
unfolding load_firmware
load_firmware-parts parts h = rw (copy_turns-parts parts [] h, load_firmware) refl
