-- ===== src/Keyboard/Tests.antt =====
-- A few keys.
use acharya_os.Base.{◌≡◌, refl, some, none, List, [], ◌∷◌}
use acharya_os.Keyboard.{boot, on_interrupt, buffer_push, getchar}
use acharya_os.Keyboard.Fifo.{Event, interrupt, read, reads, queue_reads, empty, keyboard_is_fifo}

-- a, then A with the shift key held, then the release of both.
abbrev events : List Event
events =
    interrupt 0x1E
    ∷ interrupt 0x2A
    ∷ interrupt 0x1E
    ∷ interrupt 0x9E
    ∷ interrupt 0xAA
    ∷ read
    ∷ read
    ∷ read
    ∷ []

two_letters : reads events boot ≡ some b'a' ∷ some b'A' ∷ none ∷ []
unfolding on_interrupt buffer_push getchar
two_letters = refl

keyboard_is_fifo_example : reads events boot ≡ queue_reads events empty
keyboard_is_fifo_example = keyboard_is_fifo events
