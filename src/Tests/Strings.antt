-- ===== src/Tests/Strings.antt =====
-- str.c: witnesses, with UTF-8 as the encoding.
use strans.Base.{◌≡◌, arith, length, codes, inl}
use strans.Str.Codec.{sinit-stoutf}
use strans.Str.{sinit, stoutf}
use strans.Tests.Utf8.{utf8, utf8-IsUtf}

sinit-stoutf_example :
    sinit (stoutf (codes "한a") 256) (length (stoutf (codes "한a") 256)) ≡ codes "한a"
sinit-stoutf_example =
    sinit-stoutf utf8-IsUtf (codes "한a") 256 (inl (omega arith), (inl (omega arith), tt))
      (omega arith) (omega arith)
