-- ===== src/Html/Tests.antt =====
-- app.js, escapeHtml: runs at concrete inputs.
use moment_ferry.Common.{◌≡◌, refl, codes, All}
use moment_ferry.Html.{escape_html}
use moment_ferry.Html.Escaping.{decode, decode-escape_html, IsInert, escape_html-IsInert}

escaped : escape_html (codes "<a href='x'>&") ≡ codes "&lt;a href=&#39;x&#39;&gt;&amp;"
unfolding escape_html
escaped = refl

decode-escape_html_example :
    decode (escape_html (codes "R&D <b>\"&amp;\"</b>")) ≡ codes "R&D <b>\"&amp;\"</b>"
decode-escape_html_example = decode-escape_html (codes "R&D <b>\"&amp;\"</b>")

escape_html-IsInert_example : All IsInert (escape_html (codes "<script>"))
escape_html-IsInert_example = escape_html-IsInert (codes "<script>")
