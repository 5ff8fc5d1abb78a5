-- ===== src/User/Tractius/Tests.antt =====
-- The theorems on tractius/main.c at an empty text.
use fruity_orange.User.Tractius.{Editor}

abbrev empty : Editor
empty = record {
  display_text = λ i. 0;
  block = λ i. 0;
  text = 0;
  text_length = 0;
  text_blocks = 1;
  x = 0;
  y = 0;
}
