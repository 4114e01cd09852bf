-- ===== src/Wide/Homoglyph.antt =====
-- The switch of homoglyph. A lower-case o has no case there, so the look-alikes of o are never used.
use triviabot.Common.{ℕ, List, [], ◌∷◌, none, some, lookup}

-- The look-alikes that stand first after the shuffles.
pub record Picks : Type 0 where
  pub vowel_a_upper : ℕ
  pub vowel_e_upper : ℕ
  pub vowel_o_upper : ℕ

pub cases : Picks → List (ℕ × ℕ)
cases picks =
    (b'1', b'1')
    ∷ (b'2', b'2')
    ∷ (b'3', b'3')
    ∷ (b'4', b'4')
    ∷ (b'5', b'5')
    ∷ (b'7', b'7')
    ∷ (b'8', b'8')
    ∷ (b'9', b'9')
    ∷ (b'-', 0x2010)
    ∷ (b',', b',')
    ∷ (b'_', b'_')
    ∷ (b'a', 0x430)
    ∷ (b'b', 0x42c)
    ∷ (b'c', 0x441)
    ∷ (b'd', 0x501)
    ∷ (b'e', 0x435)
    ∷ (b'g', 0x261)
    ∷ (b'h', 0x4bb)
    ∷ (b'i', 0x456)
    ∷ (b'j', 0x458)
    ∷ (b'k', 0x3ba)
    ∷ (b'l', 0x217c)
    ∷ (b'm', 0x217f)
    ∷ (b'n', 0x578)
    ∷ (b'p', 0x440)
    ∷ (b'q', 0x51b)
    ∷ (b'r', 0x433)
    ∷ (b's', 0x455)
    ∷ (b'u', 0x3c5)
    ∷ (b'v', 0x2174)
    ∷ (b'w', 0x461)
    ∷ (b'x', 0x445)
    ∷ (b'y', 0x443)
    ∷ (b'z', b'z')
    ∷ (b'A', picks.vowel_a_upper)
    ∷ (b'B', 0x392)
    ∷ (b'C', 0x3f9)
    ∷ (b'D', 0x216e)
    ∷ (b'E', picks.vowel_e_upper)
    ∷ (b'F', 0x492)
    ∷ (b'G', 0x50c)
    ∷ (b'H', 0x397)
    ∷ (b'I', 0x399)
    ∷ (b'J', 0x408)
    ∷ (b'K', 0x39a)
    ∷ (b'L', 0x216c)
    ∷ (b'M', 0x39c)
    ∷ (b'N', 0x39d)
    ∷ (b'O', picks.vowel_o_upper)
    ∷ (b'P', 0x3a1)
    ∷ (b'Q', 0x51a)
    ∷ (b'R', b'R')
    ∷ (b'S', 0x405)
    ∷ (b'T', 0x22a4)
    ∷ (b'U', 0x22c3)
    ∷ (b'V', 0x2164)
    ∷ (b'W', b'W')
    ∷ (b'X', 0x3a7)
    ∷ (b'Y', 0x4ae)
    ∷ (b'Z', 0x396)
    ∷ (b')', 0x2773)
    ∷ (b'(', 0x2772)
    ∷ []

unfoldable pub homoglyph_char : Picks → ℕ → ℕ
unfolding cases lookup
homoglyph_char picks c = elim (lookup c (cases picks)) [ none ↦ c | some d ↦ d ]
