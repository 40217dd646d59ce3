-- ===== src/Vi/Tables.antt =====
-- vi.c, `vitone`: each vowel with its five tones, in the order of the keys s f r x j.
use Prim.Native.Char.{Char, code}
use strans.Base.{ℕ, List, [], ◌∷◌, codes, String}

pub record Row : Type 0 where
  pub base : ℕ
  pub tone : List ℕ

abbrev row : Char → String → Row
row b ts = record { base = code b; tone = codes ts }

unfoldable pub vitone : List Row
vitone =
    row "a" "áàảãạ"
    ∷ row "â" "ấầẩẫậ"
    ∷ row "ă" "ắằẳẵặ"
    ∷ row "e" "éèẻẽẹ"
    ∷ row "ê" "ếềểễệ"
    ∷ row "i" "íìỉĩị"
    ∷ row "o" "óòỏõọ"
    ∷ row "ô" "ốồổỗộ"
    ∷ row "ơ" "ớờởỡợ"
    ∷ row "u" "úùủũụ"
    ∷ row "ư" "ứừửữự"
    ∷ row "y" "ýỳỷỹỵ"
    ∷ row "A" "ÁÀẢÃẠ"
    ∷ row "Â" "ẤẦẨẪẬ"
    ∷ row "Ă" "ẮẰẲẴẶ"
    ∷ row "E" "ÉÈẺẼẸ"
    ∷ row "Ê" "ẾỀỂỄỆ"
    ∷ row "I" "ÍÌỈĨỊ"
    ∷ row "O" "ÓÒỎÕỌ"
    ∷ row "Ô" "ỐỒỔỖỘ"
    ∷ row "Ơ" "ỚỜỞỠỢ"
    ∷ row "U" "ÚÙỦŨỤ"
    ∷ row "Ư" "ỨỪỬỮỰ"
    ∷ row "Y" "ÝỲỶỸỴ"
    ∷ []
