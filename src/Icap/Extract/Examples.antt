-- ===== src/Icap/Extract/Examples.antt =====
-- The theorems on the extractors, at small texts.
use ai_scan_interceptor.Base.{◌≡◌, false, [], ◌++◌, codes}
use ai_scan_interceptor.Strings.{contains}
use ai_scan_interceptor.Icap.Json.{Json, string, array, nil, cons, strings}
use ai_scan_interceptor.Icap.Extract.{gather_strings, strip_tag}
use ai_scan_interceptor.Icap.Extract.Gather.{long, gather_strings-long}
use ai_scan_interceptor.Icap.Extract.Strip.{strip_tag-lacks}

abbrev nested : Json
nested =
    array (cons (string (codes "hi")) (cons (array (cons (string (codes "a long text")) nil)) nil))

gather_strings-long_example : gather_strings 10 nested [] ≡ long 10 (strings nested)
gather_strings-long_example = gather_strings-long 10 nested

strip_tag-lacks_example :
    contains
      (strip_tag (codes "system") (codes "a <system>b</system> c"))
      (codes "<" ++ (codes "system" ++ codes ">"))
    ≡ false
strip_tag-lacks_example = strip_tag-lacks (codes "system") (codes "a <system>b</system> c")
