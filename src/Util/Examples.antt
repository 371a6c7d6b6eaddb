-- ===== src/Util/Examples.antt =====
-- The escaping of a text.
use cmoon.Base.{◌≡◌, refl, units}
use cmoon.Util.{strip_html}

escaped : strip_html (units "a<\"b") ≡ units "a&lt;&quot;b"
unfolding strip_html units
escaped = refl
