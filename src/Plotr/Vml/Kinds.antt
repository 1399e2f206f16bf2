-- ===== src/Plotr/Vml/Kinds.antt =====
-- htdocs/plotr/{LineChart,BarChart,PieChart}.js: the members of the three prototypes that `render` calls.
use dbslayer.Prelude.{List, Bytes, some}
use dbslayer.Plotr.Number.{Number}
use dbslayer.Plotr.Chart.{line_chart, bar_chart, pie_chart}
use dbslayer.Plotr.Canvas.{render_axis}
use dbslayer.Plotr.Line.{evaluate_line}
use dbslayer.Plotr.Line.Draw.{render_line_chart}
use dbslayer.Plotr.Bar.{evaluate_bar}
use dbslayer.Plotr.Bar.Draw.{render_bar_chart}
use dbslayer.Plotr.Pie.{evaluate_pie}
use dbslayer.Plotr.Pie.Draw.{render_pie_chart, render_pie_axis}
use dbslayer.Plotr.Vml.{Kind}

module _ (num : Number) where
  abbrev pub line_kind : List Bytes → Kind num
  line_kind inherited = record {
    chart_type = line_chart;
    evaluate = evaluate_line num;
    draw = λ c. some (render_line_chart num inherited c);
    draw_axis = render_axis num;
  }

  abbrev pub bar_kind : List Bytes → Kind num
  bar_kind inherited = record {
    chart_type = bar_chart;
    evaluate = evaluate_bar num;
    draw = λ c. some (render_bar_chart num inherited c);
    draw_axis = render_axis num;
  }

  abbrev pub pie_kind : Kind num
  pie_kind = record {
    chart_type = pie_chart;
    evaluate = evaluate_pie num;
    draw = λ c. some (render_pie_chart num c);
    draw_axis = render_pie_axis num;
  }
