-- ===== src/Console/Text/Tests.antt =====
-- Two lines, of which the second is not ended yet.
use arc_tests.Prelude.{
  ℕ, ◌<◌, ◌≡◌, refl, arith, some, none, false, List, [], ◌∷◌, ◌++◌, length, flatten, codes,
}
use arc_tests.Host.Device.{Host}
use arc_tests.Host.Console.{bytes_from}
use arc_tests.Guest.Print.{put_all}
use arc_tests.Guest.Stdio.{Output}
use arc_tests.Console.Link.{mmio_bus}
use arc_tests.Console.Chunks.{chunks, shown, HaveRoom}
use arc_tests.Console.Text.{put_all-text}

abbrev start : Output Host
start = record {
  mem = λ p. 0;
  buflen = 0;
  device = record { memory = λ key. none; finished = false; console = [] };
}

abbrev text : List ℕ
text = codes "hi\nho"

cut : chunks [] text ≡ (codes "hi\n" ∷ [], codes "ho")
unfolding chunks
cut = refl

put_all-text_example :
    let (sent, left) = chunks [] text in
    (flatten sent ++ left ≡ text)
    × (length left < 64)
    × (out' : Output Host) × (tails : List (List ℕ)) × (put_all mmio_bus 1 0x5000 start text
        ≡ some out')
    × HaveRoom sent tails
    × (out'.device.console ≡ [] ++ shown sent tails)
    × (out'.device.finished ≡ false)
    × (out'.buflen ≡ length left)
    × (bytes_from out'.mem 0x5000 (length left) ≡ left)
put_all-text_example =
    put_all-text 0 0x5000 start text (λ q. omega arith) refl
      (
        omega arith,
        omega arith,
        (
          omega arith,
          omega arith,
          (omega arith, omega arith, (omega arith, omega arith, (omega arith, omega arith, tt))),
        ),
      )
