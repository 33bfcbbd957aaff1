-- ===== src/TextFilter.antt =====
-- backend/internal/textfilter: what the hall's texts are searched for, and how what is found is
-- masked. A text is the list of its runes: []rune of valid UTF-8.
pub mod Runes
pub mod Views
pub mod Automaton
pub mod Digits
pub mod Hosts
pub mod Mask
pub mod Compile
pub mod Check
pub mod Tests
