-- ===== src/Scanner/Banner/Examples.antt =====
-- `CleanBanner` at a concrete banner.
use route_fork.Base.{◌≡◌, refl, false, All}
use route_fork.Text.{codes, trim_space, contains}
use route_fork.Scanner.Banner.{two_spaces, clean_banner}
use route_fork.Scanner.Banner.Clean.{IsPrintable, clean_banner-IsPrintable}

cleaned : clean_banner (codes "220 \t\n mail   ready\r\n") ≡ codes "220 mail ready"
unfolding clean_banner contains trim_space
cleaned = refl

clean_banner-IsPrintable_example :
    All IsPrintable (clean_banner (codes "220 \t x\r\n"))
    × (contains (clean_banner (codes "220 \t x\r\n")) two_spaces ≡ false)
clean_banner-IsPrintable_example = clean_banner-IsPrintable (codes "220 \t x\r\n")
